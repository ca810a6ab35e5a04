-- ===== src/Ingester/Wait/Seen.antt =====
-- What a finished run of `WaitForStable` of stat_ingester.go has passed through.
use ringpop_common.Common.{
  ◌≡◌, refl, sym, ap, ◌∙◌, inl, inr, true, List, [], ◌∷◌, ◌++◌, Bool-cases, Bytes,
}
use ringpop_common.Outcome.{ok}
use ringpop_common.Ingester.{StatIngester, is_cluster_stable}
use ringpop_common.Ingester.Wait.{
  await_unstable, await_stable, done, Event, stat, turn, World, step, run, in_phase, run-step,
  step-stat, run-nil, run-cons, wait_again, wait_on, go_on,
}

module _ {W : Type 0} (hosts : List Bytes) where
  -- A run passes through a moment at which the cluster was stable.
  pub record SeesStable (w : World W) (es : List Event) (last : World W) : Type 0 where
    pub before : List Event
    pub after : List Event
    pub splits : es ≡ before ++ after
    pub moment : World W
    pub reaches : run hosts w before ≡ ok moment
    pub stable : is_cluster_stable moment.ingester hosts ≡ true
    pub goes_on : run hosts moment after ≡ ok last

  -- A run passes through a moment at which an instability was on record, and after it through one
  -- at which the cluster was stable.
  pub record SeesBoth (w : World W) (es : List Event) (last : World W) : Type 0 where
    pub before : List Event
    pub after : List Event
    pub splits : es ≡ before ++ after
    pub moment : World W
    pub reaches : run hosts w before ≡ ok moment
    pub unstable : moment.ingester.was_unstable ≡ true
    pub later : SeesStable moment after last

  SeesStable-cons :
      (w v : World W) (e : Event) (es : List Event) (last : World W)
      → step hosts w e ≡ ok v
      → SeesStable v es last
      → SeesStable w (e ∷ es) last
  SeesStable-cons w v e es last h s = record {
    before = e ∷ s.before;
    after = s.after;
    splits = ap (◌∷◌ e) s.splits;
    moment = s.moment;
    reaches = run-step hosts w v e s.before h ∙ s.reaches;
    stable = s.stable;
    goes_on = s.goes_on;
  }

  SeesBoth-cons :
      (w v : World W) (e : Event) (es : List Event) (last : World W)
      → step hosts w e ≡ ok v
      → SeesBoth v es last
      → SeesBoth w (e ∷ es) last
  SeesBoth-cons w v e es last h s = record {
    before = e ∷ s.before;
    after = s.after;
    splits = ap (◌∷◌ e) s.splits;
    moment = s.moment;
    reaches = run-step hosts w v e s.before h ∙ s.reaches;
    unstable = s.unstable;
    later = s.later;
  }

  run-SeesStable :
      (es : List Event) (si : StatIngester W) (last : World W)
      → run hosts (in_phase hosts await_stable si) es ≡ ok last
      → last.phase ≡ done
      → SeesStable (in_phase hosts await_stable si) es last
  run-SeesStable [] si last r d =
      absurd
        (cc (ap (λ (w : World W). w.phase) (run-nil hosts (in_phase hosts await_stable si) last r)))
  run-SeesStable (stat str ∷ es) si last r d =
      let (v, st, r') = run-cons hosts (in_phase hosts await_stable si) last (stat str) es r in
      let (si', e) = step-stat hosts await_stable si str st in
      SeesStable-cons _ (in_phase hosts await_stable si') (stat str) es last (rw e at st)
        (run-SeesStable es si' last (rw e at r') d)
  run-SeesStable (turn ∷ es) si last r d = elim (Bool-cases (is_cluster_stable si hosts)) [
    | inl h ↦ record {
      before = [];
      after = turn ∷ es;
      splits = refl;
      moment = in_phase hosts await_stable si;
      reaches = unfold run in refl;
      stable = h;
      goes_on = r;
    }
    | inr h ↦
        SeesStable-cons _ (in_phase hosts await_stable si) turn es last (wait_again hosts si h) (
          run-SeesStable es si last
            (sym (run-step hosts _ (in_phase hosts await_stable si) turn es (wait_again hosts si h))
              ∙ r)
            d)
  ]

  -- A wait that ends has seen the cluster unstable and, later, stable: in every run of stats and
  -- steps of `WaitForStable` from its start to its end there is a moment at which `wasUnstable` held,
  -- and behind it a moment at which the cluster was stable for the given hosts.
  run-SeesBoth :
      (es : List Event) (si : StatIngester W) (last : World W)
      → run hosts (in_phase hosts await_unstable si) es ≡ ok last
      → last.phase ≡ done
      → SeesBoth (in_phase hosts await_unstable si) es last
  run-SeesBoth [] si last r d =
      absurd (
        cc
          (ap (λ (w : World W). w.phase) (run-nil hosts (in_phase hosts await_unstable si) last r)))
  run-SeesBoth (stat str ∷ es) si last r d =
      let (v, st, r') = run-cons hosts (in_phase hosts await_unstable si) last (stat str) es r in
      let (si', e) = step-stat hosts await_unstable si str st in
      SeesBoth-cons _ (in_phase hosts await_unstable si') (stat str) es last (rw e at st)
        (run-SeesBoth es si' last (rw e at r') d)
  run-SeesBoth (turn ∷ es) si last r d = elim (Bool-cases si.was_unstable) [
    | inl h ↦ record {
      before = [];
      after = turn ∷ es;
      splits = refl;
      moment = in_phase hosts await_unstable si;
      reaches = unfold run in refl;
      unstable = h;
      later = SeesStable-cons _ (in_phase hosts await_stable si) turn es last (go_on hosts si h) (
          run-SeesStable es si last
            (sym (run-step hosts _ (in_phase hosts await_stable si) turn es (go_on hosts si h)) ∙ r)
            d);
    }
    | inr h ↦ SeesBoth-cons _ (in_phase hosts await_unstable si) turn es last (wait_on hosts si h) (
        run-SeesBoth es si last
          (sym (run-step hosts _ (in_phase hosts await_unstable si) turn es (wait_on hosts si h))
            ∙ r)
          d)
  ]
