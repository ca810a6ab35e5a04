-- ===== src/Ingester/Threads/Flag.antt =====
-- `wasUnstable` of stat_ingester.go as a function of the events of its goroutines.
use ringpop_common.Common.{
  ◌≡◌, refl, ◌∙◌, inl, inr, Bool, true, false, ◌||◌, List, [], ◌∷◌, map, arith, if◌then◌else◌,
  Bool-cases, Bytes,
}
use ringpop_common.Ingester.Reports.{Report, silent, node, broken, report, any_unstable}
use ringpop_common.Ingester.Stability.{or_false}
use ringpop_common.Ingester.Threads.{Event, took, wrote, labelled, began, looked, cleared}

-- The flag behind the events: a stat of an instability sets it, and the end of a wait clears it.
unfoldable pub flag_after : Bool → List Event → Bool
flag_after flag [] = flag
flag_after flag (took str ∷ es) = flag_after (any_unstable (report str ∷ []) || flag) es
flag_after flag (cleared ∷ es) = flag_after false es
flag_after flag (_ ∷ es) = flag_after flag es

-- whether a wait has ended, and the stats that were handled since one last did
unfoldable pub ended : List Event → Bool
ended [] = false
ended (cleared ∷ es) = true
ended (_ ∷ es) = ended es

unfoldable pub recent : List Event → List Bytes
unfolding ended
recent [] = []
recent (took str ∷ es) = let rest = recent es in if ended es then rest else str ∷ rest
recent (_ ∷ es) = recent es

any_unstable-cons :
    (r : Report) (rs : List Report) (flag : Bool)
    → (any_unstable rs || (any_unstable (r ∷ []) || flag)) ≡ (any_unstable (r ∷ rs) || flag)
unfolding any_unstable
any_unstable-cons silent rs flag = refl
any_unstable-cons broken rs flag = refl
any_unstable-cons (node name true) rs flag = refl
any_unstable-cons (node name false) rs flag = ground arith

flag_after-recent :
    (flag : Bool) (es : List Event)
    → flag_after flag es
      ≡ (any_unstable (map report (recent es)) || (if ended es then false else flag))
unfolding flag_after recent ended any_unstable
flag_after-recent flag [] = refl
flag_after-recent flag (took str ∷ es) = elim (Bool-cases (ended es)) [
  | inl z ↦ flag_after-recent _ es ∙ rw z
  | inr z ↦
      flag_after-recent _ es ∙ rw z (any_unstable-cons (report str) (map report (recent es)) flag)
]
flag_after-recent flag (cleared ∷ es) = elim (Bool-cases (ended es)) [
  | inl z ↦ flag_after-recent false es ∙ rw z
  | inr z ↦ flag_after-recent false es ∙ rw z
]
flag_after-recent flag (wrote str ∷ es) = flag_after-recent flag es
flag_after-recent flag (labelled l cmd ∷ es) = flag_after-recent flag es
flag_after-recent flag (began hosts ∷ es) = flag_after-recent flag es
flag_after-recent flag (looked ∷ es) = flag_after-recent flag es

pub flag_after-new : (es : List Event) → flag_after false es ≡ any_unstable (map report (recent es))
flag_after-new es = elim (Bool-cases (ended es)) [
  | inl z ↦ flag_after-recent false es ∙ rw z (or_false (any_unstable (map report (recent es))))
  | inr z ↦ flag_after-recent false es ∙ rw z (or_false (any_unstable (map report (recent es))))
]
