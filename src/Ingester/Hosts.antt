-- ===== src/Ingester/Hosts.antt =====
-- The names of nodes: the host and port that `IsClusterStable` of stat_ingester.go is asked about, and the
-- name under which `handleStat` keeps what the stats of that node say.
use ringpop_common.Common.{
  ℕ, ◌≡◌, refl, sym, ap, ◌∙◌, inl, inr, Bool, true, false, not, ◌||◌, Option, some, [], ◌∷◌, ◌++◌,
  map, arith, if◌then◌else◌, Bool-cases, Bytes, codes, bytes_eq, bytes_eq_iff, All, Lacks,
}
use ringpop_common.Common.Dict.{lookup, insert, lookup-insert}
use ringpop_common.Outcome.{ok}
use ringpop_common.Analysis.Host.{hostport_regex, is_digit}
use ringpop_common.Analysis.Host.Regex.{IsDigit, IsNumber, Spells}
use ringpop_common.Analysis.Host.Front.{Spells-IsHostByte, IsHostByte-Lacks}
use ringpop_common.Ingester.{
  StatIngester, handle_stat, stat_name, is_empty, stable_hosts, is_cluster_stable,
}
use ringpop_common.Ingester.Lines.{
  stat_line, IsPlainTime, IsPlainName, handle_stat-stat_line, as_in_stats, stat_name-map,
}

-- A host and port as the hosts are listed: "172.18.24.220:3000".
pub record Address : Type 0 where
  pub first : Bytes
  pub second : Bytes
  pub third : Bytes
  pub fourth : Bytes
  pub port : Bytes

pub record IsAddress (a : Address) : Type 0 where
  pub first_number : IsNumber 3 a.first
  pub second_number : IsNumber 3 a.second
  pub third_number : IsNumber 3 a.third
  pub fourth_number : IsNumber 3 a.fourth
  pub port_number : IsNumber 6 a.port

abbrev pub host_text : Address → Bytes
host_text a =
    a.first ++ (b'.' ∷ (a.second ++ (b'.' ∷ (a.third ++ (b'.' ∷ (a.fourth ++ (b':' ∷ a.port)))))))

abbrev node_text : Address → Bytes
node_text a =
    a.first ++ (b'_' ∷ (a.second ++ (b'_' ∷ (a.third ++ (b'_' ∷ (a.fourth ++ (b'_' ∷ a.port)))))))

as_in_stats-digits :
    (d s t : Bytes) → All IsDigit d → map as_in_stats s ≡ t → map as_in_stats (d ++ s) ≡ d ++ t
as_in_stats-digits [] s t h e = e
as_in_stats-digits (c ∷ d) s t (hc, h) e = ground (arith, as_in_stats-digits d s t h e)

all_digits : (d : Bytes) → All IsDigit d → map as_in_stats d ≡ d
all_digits [] h = refl
all_digits (c ∷ d) (hc, h) = ground (arith, all_digits d h)

stat_name-node_text : (a : Address) → IsAddress a → stat_name (host_text a) ≡ node_text a
stat_name-node_text a h =
    stat_name-map (host_text a)
    ∙ as_in_stats-digits a.first _ _ h.first_number.1 (
        ap (◌∷◌ b'_') (
          as_in_stats-digits a.second _ _ h.second_number.1 (
            ap (◌∷◌ b'_') (
              as_in_stats-digits a.third _ _ h.third_number.1 (
                ap (◌∷◌ b'_') (
                  as_in_stats-digits a.fourth _ _ h.fourth_number.1
                    (ap (◌∷◌ b'_') (all_digits a.port h.port_number.1))))))))

node_text-Spells : (a : Address) → IsAddress a → Spells hostport_regex (node_text a)
node_text-Spells a h = (
  a.first,
  _,
  refl,
  h.first_number,
  (
    a.second,
    _,
    refl,
    h.second_number,
    (a.third, _, refl, h.third_number, (a.fourth, a.port, refl, h.fourth_number, h.port_number)),
  ),
)

-- Two numbers before a byte that is no digit are read off one by one.
digits_cancel :
    (c : ℕ) (d e s t : Bytes)
    → is_digit c ≡ false
    → All IsDigit d
    → All IsDigit e
    → d ++ (c ∷ s) ≡ e ++ (c ∷ t)
    → (d ≡ e) × (s ≡ t)
digits_cancel c [] [] s t n hd he h = (refl, ground arith)
digits_cancel c [] (x ∷ e) s t n hd (hx, he) h =
    let same : c ≡ x = ground arith in absurd (cc (ap is_digit same))
digits_cancel c (x ∷ d) [] s t n (hx, hd) he h =
    let same : x ≡ c = ground arith in absurd (cc (ap is_digit same))
digits_cancel c (x ∷ d) (y ∷ e) s t n (hx, hd) (hy, he) h =
    let head : x ≡ y = ground arith in
    let rest : d ++ (c ∷ s) ≡ e ++ (c ∷ t) = ground arith in
    let (front, back) = digits_cancel c d e s t n hd he rest in (rw (head, front), back)

node_text_same :
    (a b : Address)
    → IsAddress a
    → IsAddress b
    → node_text a ≡ node_text b
    → host_text a ≡ host_text b
node_text_same a b ha hb h =
    let (e1, r1) =
      digits_cancel b'_' a.first b.first _ _ refl ha.first_number.1 hb.first_number.1 h in
    let (e2, r2) =
      digits_cancel b'_' a.second b.second _ _ refl ha.second_number.1 hb.second_number.1 r1 in
    let (e3, r3) =
      digits_cancel b'_' a.third b.third _ _ refl ha.third_number.1 hb.third_number.1 r2 in
    let (e4, e5) =
      digits_cancel b'_' a.fourth b.fourth _ _ refl ha.fourth_number.1 hb.fourth_number.1 r3 in
    rw (e1, e2, e3, e4, e5)

name_test :
    (a b : Address)
    → IsAddress a
    → IsAddress b
    → bytes_eq (node_text a) (node_text b) ≡ bytes_eq (host_text a) (host_text b)
name_test a b ha hb = elim (Bool-cases (bytes_eq (host_text a) (host_text b))) [
  | inl e ↦
      let same : host_text a ≡ host_text b = (bytes_eq_iff _ _).0 e in
      let named : node_text a ≡ node_text b =
        sym (stat_name-node_text a ha) ∙ ap stat_name same ∙ stat_name-node_text b hb in
      (bytes_eq_iff _ _).1 named ∙ sym e
  | inr e ↦ elim (Bool-cases (bytes_eq (node_text a) (node_text b))) [
    | inl t ↦ absurd (
        cc (
          e,
          (bytes_eq_iff (host_text a) (host_text b)).1
              (node_text_same a b ha hb ((bytes_eq_iff (node_text a) (node_text b)).0 t)),
        ))
    | inr t ↦ t ∙ sym e
  ]
]

node_text-IsPlainName : (a : Address) → IsAddress a → IsPlainName (node_text a)
node_text-IsPlainName a h =
    let bytes = Spells-IsHostByte hostport_regex (node_text a) (node_text-Spells a h) in
    (
      IsHostByte-Lacks b'c' (node_text a) (inr (omega arith)) bytes,
      IsHostByte-Lacks b'.' (node_text a) (inl (omega arith)) bytes,
    )

one_host :
    {W : Type 0} (si : StatIngester W) (h : Bytes)
    → is_cluster_stable si (h ∷ []) ≡ is_empty (lookup (stat_name h) si.empty_nodes)
unfolding is_cluster_stable stable_hosts
one_host si h = elim (Bool-cases (is_empty (lookup (stat_name h) si.empty_nodes))) [
  | inl e ↦ rw e
  | inr e ↦ rw e
]

is_empty_if :
    (t v : Bool) (l : Option Bool)
    → is_empty (if t then some v else l) ≡ (if t then v else is_empty l)
is_empty_if true true l = refl
is_empty_if true false l = refl
is_empty_if false v l = refl

decided :
    {W : Type 0} (si : StatIngester W) (a b : Address) (v : Bool)
    → IsAddress a
    → IsAddress b
    → is_empty (lookup (stat_name (host_text b)) (insert (node_text a) v si.empty_nodes)) ≡ (
        if bytes_eq (host_text a) (host_text b) then v else is_cluster_stable si (host_text b ∷ []))
decided si a b v ha hb =
    rw (one_host si (host_text b), stat_name-node_text b hb)
      (rw (lookup-insert (node_text a) (node_text b) v si.empty_nodes) (
        rw (name_test a b ha hb) (
          is_empty_if (bytes_eq (host_text a) (host_text b)) v
            (lookup (node_text b) si.empty_nodes))))

-- The dissemination stat of one host decides what `IsClusterStable` says of that host and of no other:
-- for two hosts of four numbers and a port, after `handleStat` of a stat of the node of `a`, with a
-- plain time and a count without a bar, the host `b` is stable exactly if the count is "0" where `b` is
-- `a`, and as it was before for any other `b`.
pub handle_stat-host :
    {W : Type 0} (si : StatIngester W) (a b : Address) (time count : Bytes)
    → IsAddress a
    → IsAddress b
    → IsPlainTime time
    → Lacks b'|' count
    → (si' : StatIngester W) × (handle_stat si (stat_line time (node_text a) count) ≡ ok si')
      × (is_cluster_stable si' (host_text b ∷ []) ≡ (
          if bytes_eq (host_text a) (host_text b)
          then bytes_eq count (codes "0")
          else is_cluster_stable si (host_text b ∷ [])))
handle_stat-host si a b time count ha hb ht hc =
    let si' = record si {
      was_unstable = not (bytes_eq count (codes "0")) || si.was_unstable;
      empty_nodes = insert (node_text a) (bytes_eq count (codes "0")) si.empty_nodes;
    } in
    (
      si',
      handle_stat-stat_line si time (node_text a) count ht (node_text-IsPlainName a ha) hc,
      one_host si' (host_text b) ∙ decided si a b (bytes_eq count (codes "0")) ha hb,
    )
