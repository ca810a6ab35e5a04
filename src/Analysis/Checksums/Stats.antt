-- ===== src/Analysis/Checksums/Stats.antt =====
-- `ChecksumsAnalysis` of stat_analysis.go: what a stat of a checksum adds to the map.
use ringpop_common.Common.{
  ℕ, ◌+◌, ◌-◌, ◌<◌, ◌≡◌, refl, sym, ap, ◌∙◌, subst, ◌≢◌, inr, true, false, none, some, List, [],
  ◌∷◌, ◌++◌, append_assoc, arith, ltb, if◌then◌else◌, Bytes, codes, bytes_eq, length, drop,
  length-append, take-append, drop-append, drop-length_add, All-append, Lacks,
}
use ringpop_common.Common.{lacks, lacks-Lacks}
use ringpop_common.Common.Dict.{insert}
use ringpop_common.Outcome.{no_host, ok, err}
use ringpop_common.Text.{has_prefix, index, contains}
use ringpop_common.Text.Index.{index-append_second, index-none-append, index-Lacks}
use ringpop_common.Analysis.{checksum_path, store_checksum, checksum_line}
use ringpop_common.Analysis.Host.{hostport_regex, find_host}
use ringpop_common.Analysis.Host.Regex.{Spells, ne-nil, Spells-ne-nil}
use ringpop_common.Analysis.Host.Front.{
  find_host_behind, find_host_front, Spells-IsHostByte, IsHostByte-Lacks,
}

pub record Stat : Type 0 where
  pub time : Bytes
  pub host : Bytes
  pub checksum : Bytes

-- the line of the stats file for a checksum
unfoldable pub checksum_stat : Stat → Bytes
checksum_stat r =
    r.time
    ++ (codes "|ringpop" ++ (b'.' ∷ (r.host ++ (checksum_path ++ (r.checksum ++ codes "|g")))))

-- The host is one that `hostportRegex` matches; the time and the checksum hold no letters that would
-- make up one of the paths, and the time no underscore.
pub record IsStat (r : Stat) : Type 0 where
  pub no_underscore : Lacks b'_' r.time
  pub no_c : Lacks b'c' r.time
  pub no_r : Lacks b'r' r.time
  pub checksum_no_r : Lacks b'r' r.checksum
  pub host_spelled : Spells hostport_regex r.host

abbrev pub front : Stat → Bytes
front r = r.time ++ (codes "|ringpop" ++ (b'.' ∷ r.host))

checksum_stat-front :
    (r : Stat) → checksum_stat r ≡ front r ++ (checksum_path ++ (r.checksum ++ codes "|g"))
unfolding checksum_stat
checksum_stat-front r = sym (
    append_assoc r.time (codes "|ringpop" ++ (b'.' ∷ r.host))
      (checksum_path ++ (r.checksum ++ codes "|g")))

front-Lacks :
    (b : ℕ) (r : Stat)
    → Lacks b r.time
    → lacks b (codes "|ringpop.") ≡ true
    → Lacks b r.host
    → Lacks b (front r)
front-Lacks b r h test hh =
    All-append _ r.time (codes "|ringpop" ++ (b'.' ∷ r.host)) h
      (All-append _ (codes "|ringpop.") r.host (lacks-Lacks b (codes "|ringpop.") test) hh)

host-Lacks : (b : ℕ) (r : Stat) → IsStat r → b'_' < b → Lacks b r.host
host-Lacks b r h lt =
    IsHostByte-Lacks b r.host (inr lt) (Spells-IsHostByte hostport_regex r.host h.host_spelled)

-- The path is found behind the host, whatever stands behind it.
pub stat_index :
    (r : Stat) (tail : Bytes)
    → IsStat r
    → index (front r ++ (checksum_path ++ tail)) checksum_path ≡ some (length (front r))
stat_index r tail h =
    index-append_second b'.' b'c' (front r) (codes "hecksum:") tail (λ e. omega arith)
      (unfold lacks in front-Lacks b'c' r h.no_c refl (host-Lacks b'c' r h (omega arith)))

no_ring_behind :
    (r : Stat) (tail : Bytes)
    → IsStat r
    → Lacks b'r' tail
    → index
        (codes "|ringpop" ++ (b'.' ∷ (r.host ++ (checksum_path ++ tail))))
        (codes "ring.checksum")
      ≡ none
unfolding index has_prefix lacks
no_ring_behind r tail h ht = rw (
    index-Lacks b'r' (r.host ++ (checksum_path ++ tail)) (codes "ing.checksum") (
      All-append _ r.host _ (host-Lacks b'r' r h (omega arith))
        (All-append _ checksum_path tail (lacks-Lacks b'r' checksum_path refl) ht)))

pub no_ring :
    (r : Stat) (tail : Bytes)
    → IsStat r
    → Lacks b'r' tail
    → contains (front r ++ (checksum_path ++ tail)) (codes "ring.checksum") ≡ false
unfolding contains
no_ring r tail h ht =
    rw (append_assoc r.time (codes "|ringpop" ++ (b'.' ∷ r.host)) (checksum_path ++ tail)) (
      rw (
        index-none-append b'r' r.time (codes "ing.checksum") _ h.no_r (no_ring_behind r tail h ht)))

pub text_behind :
    (r : Stat) (tail : Bytes)
    → drop (length (front r) + length checksum_path) (front r ++ (checksum_path ++ tail)) ≡ tail
text_behind r tail = drop-length_add (length checksum_path) (front r) (checksum_path ++ tail)

gauge-Lacks : (r : Stat) → IsStat r → Lacks b'r' (r.checksum ++ codes "|g")
unfolding lacks
gauge-Lacks r h = All-append _ r.checksum _ h.checksum_no_r (lacks-Lacks b'r' (codes "|g") refl)

stat_host : (r : Stat) → IsStat r → find_host (checksum_stat r) ≡ r.host
unfolding checksum_stat lacks
stat_host r h =
    ap find_host (
      sym (
        append_assoc r.time (codes "|ringpop")
          (b'.' ∷ (r.host ++ (checksum_path ++ (r.checksum ++ codes "|g"))))))
    ∙ find_host_behind (r.time ++ codes "|ringpop") _
        (All-append _ r.time _ h.no_underscore (lacks-Lacks b'_' (codes "|ringpop") refl))
    ∙ find_host_front r.host _ h.host_spelled

host-ne-nil : (r : Stat) → IsStat r → r.host ≢ []
host-ne-nil r h e = Spells-ne-nil hostport_regex (subst (Spells hostport_regex) e h.host_spelled)

-- A text with the suffix of a gauge is stored under the host of the line, if there is one.
pub store_checksum-gauge :
    (line checksum : Bytes) (m : List (Bytes × Bytes))
    → store_checksum line (checksum ++ codes "|g") m ≡ (
        if bytes_eq (find_host line) []
        then err (no_host line)
        else ok (insert (find_host line) checksum m))
unfolding bytes_eq store_checksum
store_checksum-gauge line checksum m = rw (length-append checksum (codes "|g")) (
    rw (long (length checksum)) (
      rw (short (length checksum))
        (rw (drop-append checksum (codes "|g")) (rw (take-append checksum (codes "|g")) refl))))
  where
    long : (n : ℕ) → ltb (n + 2) 2 ≡ false
    long n = ground arith

    short : (n : ℕ) → n + 2 - 2 ≡ n
    short n = omega arith

store_checksum-insert :
    (m : List (Bytes × Bytes)) (r : Stat)
    → IsStat r
    → store_checksum (checksum_stat r) (r.checksum ++ codes "|g") m
      ≡ ok (insert r.host r.checksum m)
store_checksum-insert m r h =
    store_checksum-gauge (checksum_stat r) r.checksum m
    ∙ rw (stat_host r h) (rw (ne-nil r.host (host-ne-nil r h)) refl)

-- A stat of a checksum puts the checksum into the map under its host.
pub checksum_line-insert :
    (m : List (Bytes × Bytes)) (r : Stat)
    → IsStat r
    → checksum_line m (checksum_stat r) ≡ ok (insert r.host r.checksum m)
unfolding checksum_line
checksum_line-insert m r h =
    rw (checksum_line, found) (rw not_ring (rw behind (store_checksum-insert m r h)))
  where
    tail : Bytes
    tail = r.checksum ++ codes "|g"

    found : index (checksum_stat r) checksum_path ≡ some (length (front r))
    found = rw (checksum_stat-front r) (stat_index r tail h)

    not_ring : contains (checksum_stat r) (codes "ring.checksum") ≡ false
    not_ring = rw (checksum_stat-front r) (no_ring r tail h (gauge-Lacks r h))

    behind : drop (length (front r) + length checksum_path) (checksum_stat r) ≡ tail
    behind = rw (checksum_stat-front r) (text_behind r tail)
