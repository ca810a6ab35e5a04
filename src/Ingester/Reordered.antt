-- ===== src/Ingester/Reordered.antt =====
-- `IngestStats` of stat_ingester.go on stats that arrive in another order: datagrams of different nodes
-- overtake one another.
use ringpop_common.Common.{
  ℕ, suc, ◌<◌, ◌≡◌, refl, sym, ap, ◌∙◌, ◌≢◌, ◌↔◌, inl, inr, Bool, true, false, not, ◌||◌, Option,
  none, some, List, [], ◌∷◌, map, arith, if◌then◌else◌, Bool-cases, Bytes, bytes_eq, bytes_eq_iff,
  length, All,
}
use ringpop_common.Outcome.{Failure, ok}
use ringpop_common.Scanner.{Scanner, Yields}
use ringpop_common.Ingester.{
  Writer, StatIngester, new_stat_ingester, stat_name, is_cluster_stable, ingest_stats,
}
use ringpop_common.Ingester.Reports.{
  Report, silent, node, broken, report, last_report, any_unstable,
}
use ringpop_common.Ingester.Stability.{AllStable, Ingested, ingest_stats-Ingested}

-- Not two reports on one node.
abbrev pub Apart : Report → Report → Type 0
Apart (node h x) (node k y) = h ≢ k
Apart _ _ = Unit

-- One sequence of stats is the other with stats that are apart exchanged.
pub data Reordered : List Bytes → List Bytes → Type 0 where
  same : {ls : List Bytes} → Reordered ls ls
  keep : (l : Bytes) {ls ls' : List Bytes} → Reordered ls ls' → Reordered (l ∷ ls) (l ∷ ls')
  exchange :
      (a b : Bytes) (ls : List Bytes)
      → Apart (report a) (report b)
      → Reordered (a ∷ b ∷ ls) (b ∷ a ∷ ls)
  chain : {ls ls' ls'' : List Bytes} → Reordered ls ls' → Reordered ls' ls'' → Reordered ls ls''

-- what is known of a node behind one report, and whether the report is of an instability
told_of : Bytes → Option Bool → Report → Option Bool
told_of name known (node h empty) = if bytes_eq h name then some empty else known
told_of name known _ = known

is_unstable : Report → Bool
is_unstable (node h empty) = not empty
is_unstable _ = false

last_report-cons :
    (name : Bytes) (known : Option Bool) (r : Report) (rs : List Report)
    → last_report name known (r ∷ rs) ≡ last_report name (told_of name known r) rs
unfolding last_report told_of
last_report-cons name known silent rs = refl
last_report-cons name known (node h empty) rs = refl
last_report-cons name known broken rs = refl

any_unstable-cons :
    (r : Report) (rs : List Report) → any_unstable (r ∷ rs) ≡ (is_unstable r || any_unstable rs)
unfolding any_unstable is_unstable
any_unstable-cons silent rs = refl
any_unstable-cons (node h true) rs = refl
any_unstable-cons (node h false) rs = refl
any_unstable-cons broken rs = refl

told_of-exchange :
    (name : Bytes) (known : Option Bool) (r s : Report)
    → Apart r s
    → told_of name (told_of name known r) s ≡ told_of name (told_of name known s) r
unfolding told_of
told_of-exchange name known (node k x) (node j y) h = elim (Bool-cases (bytes_eq k name)) [
  | inl e ↦ elim (Bool-cases (bytes_eq j name)) [
    | inl f ↦ absurd (h ((bytes_eq_iff k name).0 e ∙ sym ((bytes_eq_iff j name).0 f)))
    | inr f ↦ rw (e, f)
  ]
  | inr e ↦ rw e refl
]
told_of-exchange name known silent s h = refl
told_of-exchange name known broken s h = refl
told_of-exchange name known (node k x) silent h = refl
told_of-exchange name known (node k x) broken h = refl

last_report-Reordered :
    {ls ls' : List Bytes} (name : Bytes) (known : Option Bool)
    → Reordered ls ls'
    → last_report name known (map report ls) ≡ last_report name known (map report ls')
last_report-Reordered name known same = refl
last_report-Reordered name known (keep l {ls} {ls'} p) =
    last_report-cons name known (report l) (map report ls)
    ∙ last_report-Reordered name (told_of name known (report l)) p
    ∙ sym (last_report-cons name known (report l) (map report ls'))
last_report-Reordered name known (exchange a b ls h) =
    let rs = map report ls in
    last_report-cons name known (report a) (report b ∷ rs)
    ∙ last_report-cons name (told_of name known (report a)) (report b) rs
    ∙ ap (λ k. last_report name k rs) (told_of-exchange name known (report a) (report b) h)
    ∙ sym (last_report-cons name (told_of name known (report b)) (report a) rs)
    ∙ sym (last_report-cons name known (report b) (report a ∷ rs))
last_report-Reordered name known (chain p q) =
    last_report-Reordered name known p ∙ last_report-Reordered name known q

swap_or : (a b c : Bool) → (a || (b || c)) ≡ (b || (a || c))
swap_or a b c = ground arith

any_unstable-Reordered :
    {ls ls' : List Bytes}
    → Reordered ls ls'
    → any_unstable (map report ls) ≡ any_unstable (map report ls')
any_unstable-Reordered same = refl
any_unstable-Reordered (keep l {ls} {ls'} p) =
    any_unstable-cons (report l) (map report ls)
    ∙ ap (λ b. is_unstable (report l) || b) (any_unstable-Reordered p)
    ∙ sym (any_unstable-cons (report l) (map report ls'))
any_unstable-Reordered (exchange a b ls h) =
    let rs = map report ls in
    simp any_unstable-cons
      (swap_or (is_unstable (report a)) (is_unstable (report b)) (any_unstable rs))
any_unstable-Reordered (chain p q) = any_unstable-Reordered p ∙ any_unstable-Reordered q

All-Reordered : {ls ls' : List Bytes} (P : Bytes → Type 0) → Reordered ls ls' → All P ls → All P ls'
All-Reordered P same h = h
All-Reordered P (keep l p) (hl, h) = (hl, All-Reordered P p h)
All-Reordered P (exchange a b ls d) (ha, (hb, h)) = (hb, (ha, h))
All-Reordered P (chain p q) h = All-Reordered P q (All-Reordered P p h)

AllStable-same :
    (ls ls' : List Bytes) (hosts : List Bytes)
    → ((name : Bytes)
        → last_report name none (map report ls) ≡ last_report name none (map report ls'))
    → AllStable ls hosts
    → AllStable ls' hosts
AllStable-same ls ls' [] e h = tt
AllStable-same ls ls' (x ∷ hosts) e (hx, h) =
    (sym (e (stat_name x)) ∙ hx, AllStable-same ls ls' hosts e h)

true_iff : (a b : Bool) → ((a ≡ true) ↔ (b ≡ true)) → a ≡ b
true_iff a b (f, g) = ground arith

length-Reordered : {ls ls' : List Bytes} → Reordered ls ls' → length ls ≡ length ls'
length-Reordered same = refl
length-Reordered (keep l p) = ap suc (length-Reordered p)
length-Reordered (exchange a b ls h) = refl
length-Reordered (chain p q) = length-Reordered p ∙ length-Reordered q

is_cluster_stable-Reordered :
    {W : Type 0} (wr : Writer W) (w : W) {ls ls' : List Bytes} (si si' : StatIngester W)
    → Reordered ls ls'
    → Ingested wr w ls ls si
    → Ingested wr w ls' ls' si'
    → (hosts : List Bytes) → is_cluster_stable si hosts ≡ is_cluster_stable si' hosts
is_cluster_stable-Reordered wr w {ls} {ls'} si si' p a b hosts =
    let e : (name : Bytes)
        → last_report name none (map report ls) ≡ last_report name none (map report ls') =
      λ name. last_report-Reordered name none p in
    true_iff (is_cluster_stable si hosts) (is_cluster_stable si' hosts) (
      (λ h. (b.stable hosts).1 (AllStable-same ls ls' hosts e ((a.stable hosts).0 h))),
      (λ h.
          (a.stable hosts).1
            (AllStable-same ls' ls hosts (λ name. sym (e name)) ((b.stable hosts).0 h))),
    )

-- Only the order of the stats of one node counts. Over two scanners whose lines differ by exchanges of
-- lines that are not both dissemination stats of one node, where none names no node, with a writer
-- that takes every line and more fuel than there are lines: `IngestStats` of a new ingester ends
-- without a failure on both, and then `IsClusterStable` gives the same for whatever hosts, and
-- `wasUnstable` is the same.
pub ingest_stats-Reordered :
    {W S : Type 0} (wr : Writer W) (sc : Scanner S) (w : W) (s s' : S) (ls ls' : List Bytes)
    (fuel : ℕ) (e e' : Option Failure)
    → ((v : W) (b : Bytes) → (wr.write v b).1 ≡ true)
    → All (λ l. report l ≢ broken) ls
    → Reordered ls ls'
    → Yields sc s ls e
    → Yields sc s' ls' e'
    → length ls < fuel
    → (si : StatIngester W) × (si' : StatIngester W) × (t : S) × (t' : S) × (ingest_stats wr sc fuel
          (new_stat_ingester w)
          s
        ≡ ok (si, t))
      × (ingest_stats wr sc fuel (new_stat_ingester w) s' ≡ ok (si', t'))
      × ((hosts : List Bytes) → is_cluster_stable si hosts ≡ is_cluster_stable si' hosts)
      × (si.was_unstable ≡ si'.was_unstable)
ingest_stats-Reordered wr sc w s s' ls ls' fuel e e' accepts well p y y' enough =
    let (si, t, ran, state) = ingest_stats-Ingested wr sc w s ls fuel e accepts well y enough in
    let well' = All-Reordered (λ l. report l ≢ broken) p well in
    let enough' : length ls' < fuel = omega (arith, length-Reordered p) in
    let (si', t', ran', state') =
      ingest_stats-Ingested wr sc w s' ls' fuel e' accepts well' y' enough' in
    (
      si,
      si',
      t,
      t',
      ran,
      ran',
      is_cluster_stable-Reordered wr w si si' p state state',
      state.unstable ∙ any_unstable-Reordered p ∙ sym state'.unstable,
    )
