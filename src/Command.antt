-- ===== src/Command.antt =====
-- cluster-test/test-orchestrator/command.go and scenario.go, with the record of measurement.go.
use ringpop_common.Common.{Option, List, [], ◌∷◌, ◌++◌, Bytes}
use ringpop_common.Common.Int.{ℤ}
use ringpop_common.Text.{join}
use ringpop_common.Assertion.{Assertion}

pub record Command : Type 0 where
  pub label : Bytes
  pub cmd : Bytes
  pub args : List Bytes

-- `Command.String`
unfoldable pub to_string : Command → Bytes
unfolding join
to_string c = c.cmd ++ (b' ' ∷ join c.args (b' ' ∷ []))

-- A nil `*Assertion` is `none`.
pub record Measurement (F : Type 0) : Type 0 where
  pub start : Bytes
  pub end : Bytes
  pub quantity : Bytes
  pub args : List Bytes
  pub assertion : Option (Assertion F)

pub record Scenario (F : Type 0) : Type 0 where
  pub name : Bytes
  pub size : ℤ
  pub desc : Bytes
  pub script : List Command
  pub measure : List (Measurement F)
