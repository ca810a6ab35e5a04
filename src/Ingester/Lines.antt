-- ===== src/Ingester/Lines.antt =====
-- The lines that go through the ingester: the dissemination stat of a node, and the names of hosts in
-- stats.
use ringpop_common.Common.{
  ℕ, ◌≡◌, refl, ap, ◌∙◌, not, ◌||◌, some, [], ◌∷◌, ◌++◌, map, append_assoc, arith, ◌==◌,
  if◌then◌else◌, Bytes, codes, bytes_eq, length, take-append, drop-append, drop-length_add,
  All-append, Lacks,
}
use ringpop_common.Common.Dict.{insert}
use ringpop_common.Outcome.{ok}
use ringpop_common.Text.Index.{index-append}
use ringpop_common.Text.Replace.{replace_all-map}
use ringpop_common.Ingester.{StatIngester, get_between, handle_stat, stat_name}
use ringpop_common.Ingester.Reports.{node, report, apply_report, handle_stat-report}

-- The text between two markers is found, if nothing before the first holds the first byte of that
-- marker, nor the text the first byte of the second.
pub get_between-append :
    (c : ℕ) (p pre m : Bytes) (d : ℕ) (q rest : Bytes)
    → Lacks c pre
    → Lacks d m
    → get_between (pre ++ (c ∷ (p ++ (m ++ (d ∷ (q ++ rest)))))) (c ∷ p) (d ∷ q) ≡ some m
unfolding get_between
get_between-append c p pre m d q rest hp hm =
    rw (index-append c pre p (m ++ (d ∷ (q ++ rest))) hp) (
      rw (drop-length_add (length (c ∷ p)) pre (c ∷ (p ++ (m ++ (d ∷ (q ++ rest)))))) (
        rw (drop-append p (m ++ (d ∷ (q ++ rest))))
          (rw (index-append d m q rest hm) (ap some (take-append m (d ∷ (q ++ rest)))))))

-- The stat that says how many changes a node has to disseminate, as the nodes send it.
abbrev pub stat_line : Bytes → Bytes → Bytes → Bytes
stat_line time name count =
    time
    ++ (codes "|ringpop." ++ (name ++ (codes ".changes.disseminate:" ++ (count ++ codes "|g"))))

-- What a time and a node's name do not hold: the first bytes of the markers.
abbrev pub IsPlainTime : Bytes → Type 0
IsPlainTime time = Lacks b'c' time × Lacks b'r' time

abbrev pub IsPlainName : Bytes → Type 0
IsPlainName name = Lacks b'c' name × Lacks b'.' name

stat_line-changes :
    (time name count : Bytes)
    → stat_line time name count
      ≡ (time ++ (codes "|ringpop." ++ (name ++ codes ".")))
        ++ (codes "changes.disseminate:" ++ (count ++ codes "|g"))
stat_line-changes time name count = simp append_assoc

stat_line-name :
    (time name count : Bytes)
    → stat_line time name count
      ≡ (time ++ codes "|")
        ++ (codes "ringpop."
            ++ (name ++ (codes "." ++ (codes "changes.disseminate:" ++ (count ++ codes "|g")))))
stat_line-name time name count = simp append_assoc

-- A node's dissemination stat is taken for what it says: for a time, a name and a count without the
-- bytes that begin the markers around them, the report is on that node, which has nothing left
-- exactly if the count is "0".
pub report-stat_line :
    (time name count : Bytes)
    → IsPlainTime time
    → IsPlainName name
    → Lacks b'|' count
    → report (stat_line time name count) ≡ node name (bytes_eq count (codes "0"))
unfolding report
report-stat_line time name count (time_c, time_r) (nc, nd) h = rw (changes, host)
  where
    changes :
        get_between (stat_line time name count) (codes "changes.disseminate:") (codes "|")
        ≡ some count
    changes = rw stat_line-changes (
        get_between-append b'c' (codes "hanges.disseminate:")
          (time ++ (codes "|ringpop." ++ (name ++ codes "."))) count b'|' [] (codes "g")
          (All-append _ time _ time_c (
            All-append _ (codes "|ringpop.") _ (omega arith)
              (All-append _ name _ nc (omega arith))))
          h)

    host : get_between (stat_line time name count) (codes "ringpop.") (codes ".") ≡ some name
    host = rw stat_line-name (
        get_between-append b'r' (codes "ingpop.") (time ++ codes "|") name b'.' []
          (codes "changes.disseminate:" ++ (count ++ codes "|g"))
          (All-append _ time _ time_r (omega arith)) nd)

-- `handleStat` of a node's dissemination stat, for a time, a name and a count without the bytes that
-- begin the markers around them: the node is recorded as empty exactly if the count is "0", and any
-- other count sets `wasUnstable`, which a "0" leaves as it was; the writer stays.
pub handle_stat-stat_line :
    {W : Type 0} (si : StatIngester W) (time name count : Bytes)
    → IsPlainTime time
    → IsPlainName name
    → Lacks b'|' count
    → handle_stat si (stat_line time name count)
      ≡ ok (record si {
        was_unstable = not (bytes_eq count (codes "0")) || si.was_unstable;
        empty_nodes = insert name (bytes_eq count (codes "0")) si.empty_nodes;
      })
handle_stat-stat_line si time name count ht hn hc =
    let said = report-stat_line time name count ht hn hc in
    handle_stat-report si (stat_line time name count) (rw said (cc))
    ∙ rw said (unfold apply_report in refl)

abbrev pub as_in_stats : ℕ → ℕ
as_in_stats c = if c == b'.' || c == b':' then b'_' else c

map_twice :
    (h : Bytes)
    → map (λ c. if c == b':' then b'_' else c) (map (λ c. if c == b'.' then b'_' else c) h)
      ≡ map as_in_stats h
map_twice [] = refl
map_twice (c ∷ h) = ground (arith, map_twice h)

-- A host is looked up under its text with an underscore for each dot and colon, byte by byte.
pub stat_name-map : (h : Bytes) → stat_name h ≡ map as_in_stats h
unfolding stat_name
stat_name-map h = rw (replace_all-map b'.' b'_' h) (rw (replace_all-map b':' b'_') (map_twice h))
