-- ===== src/Ingester/Fatal.antt =====
-- How `IngestStats` of stat_ingester.go ends, its calls of log.Fatalf and log.Fatalln included.
use ringpop_common.Common.{
  ℕ, ◌<◌, ◌≡◌, refl, ap, subst, ◌≢◌, ◌⊎◌, inl, inr, Bool, true, false, Option, List, [], ◌∷◌, ◌++◌,
  Bytes, codes, length, All,
}
use ringpop_common.Outcome.{
  ingesting, Failure, within, io_error, no_hostport, Outcome, ok, err, panic, exit, timeout,
}
use ringpop_common.Scanner.{Scanner, Yields, for_scan}
use ringpop_common.Scanner.Loops.{for_lines, Agrees, for_scan-Agrees}
use ringpop_common.Ingester.{
  Writer, StatIngester, written, handled_or_fatal, ingest_line, ingest_stats,
}
use ringpop_common.Ingester.Reports.{
  Report, silent, node, broken, report, apply_report, handle_stat-report, handle_stat-broken,
}
use ringpop_common.Ingester.Stability.{take_line, ingest_line-take_line}

module _ {W : Type 0} (wr : Writer W) where
  ingest_line-broken :
      (si : StatIngester W) (l : Bytes)
      → report l ≡ broken
      → ingest_line wr si l ≡ exit (within ingesting (no_hostport l))
  unfolding ingest_line handled_or_fatal
  ingest_line-broken si l h = ap (handled_or_fatal wr l) (handle_stat-broken si l h)

  for_lines-broken :
      (si : StatIngester W) (good : List Bytes) (l : Bytes) (rest : List Bytes)
      → ((w : W) (b : Bytes) → (wr.write w b).1 ≡ true)
      → All (λ g. report g ≢ broken) good
      → report l ≡ broken
      → for_lines (ingest_line wr) si (good ++ (l ∷ rest)) ≡ exit (within ingesting (no_hostport l))
  unfolding for_lines
  for_lines-broken si [] l rest accepts hg h = rw (ingest_line-broken si l h)
  for_lines-broken si (g ∷ good) l rest accepts (hg, hgs) h =
      rw (ingest_line-take_line wr si g accepts hg)
        (for_lines-broken (take_line wr si g) good l rest accepts hgs h)

  -- The first dissemination stat that names no node ends the process: over a scanner that yields it
  -- behind stats that are taken in, and anything behind it, with a writer that takes every line,
  -- `IngestStats` exits with the error about that stat.
  pub ingest_stats-broken :
      {S : Type 0} (sc : Scanner S) (si : StatIngester W) (s : S) (good : List Bytes) (l : Bytes)
      (rest : List Bytes) (fuel : ℕ) (e : Option Failure)
      → ((w : W) (b : Bytes) → (wr.write w b).1 ≡ true)
      → All (λ g. report g ≢ broken) good
      → report l ≡ broken
      → Yields sc s (good ++ (l ∷ rest)) e
      → length (good ++ (l ∷ rest)) < fuel
      → ingest_stats wr sc fuel si s ≡ exit (within ingesting (no_hostport l))
  unfolding ingest_stats
  ingest_stats-broken sc si s good l rest fuel e accepts hg h y enough =
      subst (λ m. Agrees sc (ingest_line wr) e m (for_scan sc (ingest_line wr) fuel si s))
        (for_lines-broken si good l rest accepts hg h)
        (for_scan-Agrees sc (ingest_line wr) (good ++ (l ∷ rest)) fuel si s e enough y)

-- The first of the lines that is a dissemination stat naming no node, with those around it.
pub record FirstBroken (ls : List Bytes) (l : Bytes) : Type 0 where
  pub good : List Bytes
  pub rest : List Bytes
  pub splits : ls ≡ good ++ (l ∷ rest)
  pub well : All (λ g. report g ≢ broken) good
  pub is_broken : report l ≡ broken

-- A return, if every dissemination stat names its node; or the end of the process, with the error of
-- the first that does not or with that of a write.
abbrev pub IsIngestion : {A : Type 0} → List Bytes → Outcome A → Type 0
IsIngestion ls (ok a) = All (λ l. report l ≢ broken) ls
IsIngestion ls (exit f) =
    ((l : Bytes) × FirstBroken ls l × (f ≡ within ingesting (no_hostport l)))
    ⊎ (f ≡ io_error (codes "write"))
IsIngestion ls _ = ⊥

IsIngestion-cons :
    {A : Type 0} (l : Bytes) (ls : List Bytes) (m : Outcome A)
    → report l ≢ broken
    → IsIngestion ls m
    → IsIngestion (l ∷ ls) m
IsIngestion-cons l ls (ok a) h i = (h, i)
IsIngestion-cons l ls (err f) h i = i
IsIngestion-cons l ls (panic f) h i = i
IsIngestion-cons l ls (exit f) h (inl (b, first, is)) = inl (
  b,
  record {
    good = l ∷ first.good;
    rest = first.rest;
    splits = ap (◌∷◌ l) first.splits;
    well = (h, first.well);
    is_broken = first.is_broken;
  },
  is,
)
IsIngestion-cons l ls (exit f) h (inr is) = inr is
IsIngestion-cons l ls timeout h i = i

module _ {W : Type 0} (wr : Writer W) where
  -- a line that is written, or the error of the write
  ingest_line_cases :
      (si : StatIngester W) (l : Bytes)
      → report l ≢ broken
      → ((si' : StatIngester W) × (ingest_line wr si l ≡ ok si'))
        ⊎ (ingest_line wr si l ≡ exit (io_error (codes "write")))
  unfolding ingest_line handled_or_fatal written
  ingest_line_cases si l h = rw (handle_stat-report si l h) (
      written_cases (apply_report si (report l))
        (wr.write (apply_report si (report l)).writer (l ++ b'\n' ∷ [])))
    where
      written_cases :
          (s : StatIngester W) (r : W × Bool)
          → ((si' : StatIngester W) × (written wr s r ≡ ok si'))
            ⊎ (written wr s r ≡ exit (io_error (codes "write")))
      written_cases s (w, true) = inl (_, refl)
      written_cases s (w, false) = inr refl

  broken_cases : (r : Report) → (r ≡ broken) ⊎ (r ≢ broken)
  broken_cases silent = inr (λ e. cc)
  broken_cases (node name empty) = inr (λ e. cc)
  broken_cases broken = inl refl

  for_lines-IsIngestion :
      (si : StatIngester W) (ls : List Bytes) → IsIngestion ls (for_lines (ingest_line wr) si ls)
  unfolding for_lines
  for_lines-IsIngestion si [] = tt
  for_lines-IsIngestion si (l ∷ ls) = elim (broken_cases (report l)) [
    | inl b ↦
        rw (ingest_line-broken wr si l b)
          (inl (l, record { good = []; rest = ls; splits = refl; well = tt; is_broken = b }, refl))
    | inr h ↦ elim (ingest_line_cases si l h) [
      | inl (si', e) ↦ rw e (IsIngestion-cons l ls _ h (for_lines-IsIngestion si' ls))
      | inr e ↦ rw e (inr refl)
    ]
  ]

  agreed :
      {S : Type 0} (sc : Scanner S) (ls : List Bytes) (e : Option Failure)
      (m : Outcome (StatIngester W)) (r : Outcome (StatIngester W × S))
      → Agrees sc (ingest_line wr) e m r
      → IsIngestion ls m
      → IsIngestion ls r
  agreed sc ls e (ok a) r (t, is, er) h = rw is h
  agreed sc ls e (err f) r is h = absurd h
  agreed sc ls e (panic f) r is h = absurd h
  agreed sc ls e (exit f) r is h = rw is h
  agreed sc ls e timeout r is h = absurd h

  -- Over a scanner that yields the lines `ls` and stops, with or without an error, `IngestStats` of
  -- any ingester, with any writer and with more fuel than there are lines, comes to an end: it returns
  -- no error, and only if every dissemination stat among the lines names its node; or it ends the
  -- process, with the error about the first stat that names none or with the error of a write.
  pub ingest_stats-IsIngestion :
      {S : Type 0} (sc : Scanner S) (si : StatIngester W) (s : S) (ls : List Bytes) (fuel : ℕ)
      (e : Option Failure)
      → Yields sc s ls e
      → length ls < fuel
      → IsIngestion ls (ingest_stats wr sc fuel si s)
  unfolding ingest_stats
  ingest_stats-IsIngestion sc si s ls fuel e y enough =
      agreed sc ls e _ _ (for_scan-Agrees sc (ingest_line wr) ls fuel si s e enough y)
        (for_lines-IsIngestion si ls)
