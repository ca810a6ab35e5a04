-- ===== src/Ingester/Reports.antt =====
-- `handleStat` of stat_ingester.go as what a line says of a node and what that does to the state.
use ringpop_common.Common.{
  ◌≡◌, refl, ◌≢◌, inl, inr, Bool, true, false, not, ◌||◌, Option, none, some, List, [], ◌∷◌,
  if◌then◌else◌, Bool-cases, Bytes, codes, bytes_eq,
}
use ringpop_common.Common.Dict.{insert}
use ringpop_common.Outcome.{no_hostport, ok, err}
use ringpop_common.Ingester.{StatIngester, get_between, handled, record_changes, handle_stat}

-- What a line says: nothing about dissemination, or that a node has nothing left to disseminate
-- or something, or it names no node.
pub data Report : Type 0 where
  silent : Report
  node : Bytes → Bool → Report
  broken : Report

told : Option Bytes → Option Bytes → Report
told none host = silent
told (some changes) none = broken
told (some changes) (some host) = node host (bytes_eq changes (codes "0"))

unfoldable pub report : Bytes → Report
unfolding told
report str =
    told (get_between str (codes "changes.disseminate:") (codes "|"))
      (get_between str (codes "ringpop.") (codes "."))

-- The last word about a node, read from the front.
unfoldable pub last_report : Bytes → Option Bool → List Report → Option Bool
last_report name known [] = known
last_report name known (silent ∷ rs) = last_report name known rs
last_report name known (broken ∷ rs) = last_report name known rs
last_report name known (node h empty ∷ rs) =
    last_report name (if bytes_eq h name then some empty else known) rs

unfoldable pub any_unstable : List Report → Bool
any_unstable [] = false
any_unstable (node h false ∷ rs) = true
any_unstable (_ ∷ rs) = any_unstable rs

module _ {W : Type 0} where
  -- one report, done to the state
  unfoldable pub apply_report : StatIngester W → Report → StatIngester W
  apply_report si silent = si
  apply_report si broken = si
  apply_report si (node h empty) = record si {
    was_unstable = not empty || si.was_unstable;
    empty_nodes = insert h empty si.empty_nodes;
  }

  handled-told :
      (si : StatIngester W) (l : Bytes) (changes host : Option Bytes)
      → told changes host ≢ broken
      → handled si l changes host ≡ ok (apply_report si (told changes host))
  unfolding handled told apply_report
  handled-told si l none host h = refl
  handled-told si l (some changes) none h = absurd (h refl)
  handled-told si l (some changes) (some host) h =
      elim (Bool-cases (bytes_eq changes (codes "0"))) [ inl z ↦ rw z | inr z ↦ rw z ]

  pub handle_stat-report :
      (si : StatIngester W) (l : Bytes)
      → report l ≢ broken
      → handle_stat si l ≡ ok (apply_report si (report l))
  unfolding handle_stat report
  handle_stat-report si l h = handled-told si l _ _ h

  handled-told_broken :
      (si : StatIngester W) (l : Bytes) (changes host : Option Bytes)
      → told changes host ≡ broken
      → handled si l changes host ≡ err (no_hostport l)
  unfolding handled record_changes told
  handled-told_broken si l none host h = cc
  handled-told_broken si l (some changes) none h = refl
  handled-told_broken si l (some changes) (some host) h = cc

  pub handle_stat-broken :
      (si : StatIngester W) (l : Bytes) → report l ≡ broken → handle_stat si l ≡ err (no_hostport l)
  unfolding handle_stat report
  handle_stat-broken si l h = handled-told_broken si l _ _ h
