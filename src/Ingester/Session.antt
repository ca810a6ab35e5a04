-- ===== src/Ingester/Session.antt =====
-- stat_ingester.go over a whole scenario: the stats that `IngestStats` takes in and the labels that
-- `InsertLabel` writes between them, in the order in which they reach the writer.
pub mod File
pub mod Measured
use ringpop_common.Common.{
  ◌+◌, ◌-◌, ◌≡◌, refl, sym, ap, ◌∙◌, ◌≢◌, true, ◌||◌, List, [], ◌∷◌, ◌++◌, map, Bytes, All,
}
use ringpop_common.Common.Dict.{lookup}
use ringpop_common.Outcome.{Outcome, ok, ◌>>=◌, ◌>>◌}
use ringpop_common.Ingester.{
  Writer, StatIngester, new_stat_ingester, label_line, ingest_line, insert_label,
}
use ringpop_common.Ingester.Reports.{broken, report, last_report, any_unstable}
use ringpop_common.Ingester.Stability.{
  take_line, lookup-apply_report, was_unstable-apply_report, ingest_line-take_line, write_lines,
  writer-apply_report, Ingested, known-Ingested, or_false,
}

pub data Action : Type 0 where
  ingest : Bytes → Action
  label : Bytes → Bytes → Action

-- the line that an action writes
unfoldable pub action_line : Action → Bytes
action_line (ingest str) = str
action_line (label l cmd) = label_line l cmd

-- the stats among the actions
unfoldable pub stats_of : List Action → List Bytes
stats_of [] = []
stats_of (ingest str ∷ rest) = str ∷ stats_of rest
stats_of (label l cmd ∷ rest) = stats_of rest

module _ {W : Type 0} (wr : Writer W) where
  act : StatIngester W → Action → Outcome (StatIngester W)
  unfolding ingest_line insert_label
  act si (ingest str) = ingest_line wr si str
  act si (label l cmd) = ok (insert_label wr si l cmd)

  unfoldable pub perform : StatIngester W → List Action → Outcome (StatIngester W)
  unfolding act
  perform si [] = ok si
  perform si (a ∷ rest) = act si a >>= λ si'. perform si' rest

  -- the state after an action, and after all, if every write succeeds
  after_action : StatIngester W → Action → StatIngester W
  unfolding insert_label take_line
  after_action si (ingest str) = take_line wr si str
  after_action si (label l cmd) = insert_label wr si l cmd

  after_actions : StatIngester W → List Action → StatIngester W
  unfolding after_action
  after_actions si [] = si
  after_actions si (a ∷ rest) = after_actions (after_action si a) rest

  act-after_action :
      (si : StatIngester W) (a : Action)
      → ((w : W) (b : Bytes) → (wr.write w b).1 ≡ true)
      → All (λ str. report str ≢ broken) (stats_of (a ∷ []))
      → act si a ≡ ok (after_action si a)
  unfolding act after_action stats_of
  act-after_action si (ingest str) accepts (h, u) = ingest_line-take_line wr si str accepts h
  act-after_action si (label l cmd) accepts h = refl

  perform-after_actions :
      (si : StatIngester W) (actions : List Action)
      → ((w : W) (b : Bytes) → (wr.write w b).1 ≡ true)
      → All (λ str. report str ≢ broken) (stats_of actions)
      → perform si actions ≡ ok (after_actions si actions)
  unfolding perform after_actions stats_of
  perform-after_actions si [] accepts h = refl
  perform-after_actions si (ingest str ∷ rest) accepts (hs, h) =
      rw (act-after_action si (ingest str) accepts (hs, tt))
        (perform-after_actions (after_action si (ingest str)) rest accepts h)
  perform-after_actions si (label l cmd ∷ rest) accepts h =
      perform-after_actions (after_action si (label l cmd)) rest accepts h

  lookup-after_actions :
      (name : Bytes) (si : StatIngester W) (actions : List Action)
      → lookup name (after_actions si actions).empty_nodes
        ≡ last_report name (lookup name si.empty_nodes) (map report (stats_of actions))
  unfolding after_actions after_action take_line insert_label stats_of
  lookup-after_actions name si [] = unfold last_report in refl
  lookup-after_actions name si (ingest str ∷ rest) =
      lookup-after_actions name (take_line wr si str) rest
      ∙ sym (lookup-apply_report wr name si (report str) (map report (stats_of rest)))
  lookup-after_actions name si (label l cmd ∷ rest) =
      lookup-after_actions name (insert_label wr si l cmd) rest

  was_unstable-after_actions :
      (si : StatIngester W) (actions : List Action)
      → (after_actions si actions).was_unstable
        ≡ (any_unstable (map report (stats_of actions)) || si.was_unstable)
  unfolding after_actions after_action take_line insert_label stats_of
  was_unstable-after_actions si [] = unfold any_unstable in refl
  was_unstable-after_actions si (ingest str ∷ rest) =
      was_unstable-after_actions (take_line wr si str) rest
      ∙ was_unstable-apply_report wr si (report str) (map report (stats_of rest))
  was_unstable-after_actions si (label l cmd ∷ rest) =
      was_unstable-after_actions (insert_label wr si l cmd) rest

  writer-after_actions :
      (si : StatIngester W) (actions : List Action)
      → (after_actions si actions).writer ≡ write_lines wr si.writer (map action_line actions)
  unfolding after_actions after_action take_line insert_label write_lines action_line
  writer-after_actions si [] = refl
  writer-after_actions si (ingest str ∷ rest) =
      writer-after_actions (take_line wr si str) rest
      ∙ ap (λ w. write_lines wr (wr.write w (str ++ b'\n' ∷ [])).0 (map action_line rest))
          (writer-apply_report wr si (report str))
  writer-after_actions si (label l cmd ∷ rest) =
      writer-after_actions (insert_label wr si l cmd) rest

  -- Stats and labels in any order, from a new ingester with a writer that takes every line, where no
  -- dissemination stat names no node: nothing fails. Then the cluster is stable for given hosts
  -- exactly if the last dissemination stat of each host's node has the count 0, and it was unstable
  -- exactly if some stat had another count, whatever the labels; the writer has one line for each
  -- stat and each label, in order.
  pub perform-Ingested :
      (w : W) (actions : List Action)
      → ((v : W) (b : Bytes) → (wr.write v b).1 ≡ true)
      → All (λ str. report str ≢ broken) (stats_of actions)
      → (si : StatIngester W) × (perform (new_stat_ingester w) actions ≡ ok si)
        × Ingested wr w (stats_of actions) (map action_line actions) si
  perform-Ingested w actions accepts h =
      let start : StatIngester W = new_stat_ingester w in
      (
        after_actions start actions,
        perform-after_actions start actions accepts h,
        known-Ingested wr w (stats_of actions) (map action_line actions)
            (after_actions start actions)
            (λ name. unfold lookup in lookup-after_actions name start actions)
            (was_unstable-after_actions start actions
              ∙ or_false (any_unstable (map report (stats_of actions))))
            (writer-after_actions start actions),
      )
