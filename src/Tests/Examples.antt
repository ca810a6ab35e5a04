-- ===== src/Tests/Examples.antt =====
-- The examples of the repository's own tests, analysis_examples_test.go, stat_ingester_test.go and
-- assertion_test.go, with the outputs that these give, over the lines of their stats.
use ringpop_common.Common.{
  ℕ, ◌≡◌, refl, Bool, true, false, Option, none, some, List, [], ◌∷◌, ◌++◌, Bytes, codes, bytes_eq,
  take, drop,
}
use ringpop_common.Common.Int.{pos}
use ringpop_common.Common.Dict.{insert}
use ringpop_common.Outcome.{not_expected, not_in_range, type_mismatch, Outcome, ok, err, ◌>>=◌}
use ringpop_common.Text.{contains}
use ringpop_common.Scanner.{for_scan, scan_until}
use ringpop_common.Clock.{parse_time_examples, time_sub}
use ringpop_common.Scanner.Lines.{line_scanner, open_lines}
use ringpop_common.Scanner.Section.{new_section_scanner, section_scanner}
use ringpop_common.Analysis.{
  check_err, counts, add_value, gather, uniq, store_checksum, checksum_line, time_diff,
  whole_millis, keep_change, count_analysis, checksums_analysis, converge,
  convergence_time_analysis,
}
use ringpop_common.Value.{Value, nil, number, duration, deep_equal}
use ringpop_common.Assertion.{
  Assertion, is_type, in_type, to_float64, equals_assert, range_assert, assert_value,
}
use ringpop_common.Float.{whole, Whole}
use ringpop_common.Ingester.{new_stat_ingester, ingest_stats, is_cluster_stable}
use ringpop_common.Ingester.Wait.{Phase, await_unstable, done, in_phase, run, turn}
use ringpop_common.Ingester.Session.File.{file}

abbrev stats : List Bytes
stats =
    []
    ∷ codes "2016-06-15T16:11:08.198146603Z|ringpop.172_18_24_220_3007.protocol.delay:200|ms"
    ∷ codes "2016-06-15T16:11:08.198191045Z|ringpop.172_18_24_220_3007.changes.disseminate:0|g"
    ∷ codes "2016-06-15T16:11:08.198212784Z|ringpop.172_18_24_220_3007.ping.send:1|c"
    ∷ codes "2016-06-15T16:11:08.198622397Z|ringpop.172_18_24_220_3000.ping.recv:1|c"
    ∷ codes "2016-06-15T16:11:08.198694026Z|ringpop.172_18_24_220_3000.changes.disseminate:0|g"
    ∷ codes "2016-06-15T16:11:08.19884693Z|ringpop.172_18_24_220_3007.ping:0.593162|ms"
    ∷ codes "label:t0|cmd: kill 1"
    ∷ codes
        "2016-06-15T16:11:08.246816444Z|ringpop.172_18_24_220_3000.protocol.frequency:200.833341|ms"
    ∷ codes "2016-06-15T16:11:08.246954825Z|ringpop.172_18_24_220_3000.protocol.delay:200|ms"
    ∷ codes "2016-06-15T16:11:08.247013319Z|ringpop.172_18_24_220_3000.changes.disseminate:0|g"
    ∷ codes "2016-06-15T16:11:08.247032205Z|ringpop.172_18_24_220_3000.ping.send:1|c"
    ∷ codes "2016-06-15T16:11:08.247344365Z|ringpop.172_18_24_220_3008.ping.recv:1|c"
    ∷ codes "label:t1|cmd: wait-for-stable"
    ∷ codes "2016-06-15T16:11:08.247388872Z|ringpop.172_18_24_220_3008.changes.disseminate:0|g"
    ∷ codes "2016-06-15T16:11:08.247506122Z|ringpop.172_18_24_220_3000.ping:0.447996|ms"
    ∷ codes
        "2016-06-15T16:11:08.25451275Z|ringpop.172_18_24_220_3003.protocol.frequency:203.362966|ms"
    ∷ codes "2016-06-15T16:11:08.254576313Z|ringpop.172_18_24_220_3003.protocol.delay:200|ms"
    ∷ []

-- the lines of a section, as `fmt.Println` prints them
abbrev printed : List Bytes → Outcome (List Bytes)
printed ls = do
  s ← new_section_scanner line_scanner 20 (open_lines ls none) (codes "t0") (codes "t1")
  r ← for_scan (section_scanner line_scanner) (λ out l. ok (out ++ (l ∷ []))) 20 [] s
  ok r.0

section_output : printed stats ≡ ok (take 5 (drop 8 stats))
unfolding new_section_scanner section_scanner line_scanner for_scan bytes_eq
section_output = refl

-- These patterns match where they stand.
abbrev match_text : Bytes → Bytes → Option Bool
match_text pattern line = some (contains line pattern)

count_pings :
    count_analysis line_scanner match_text 20 (open_lines stats none) (codes "ping.send") ≡ ok 2
unfolding count_analysis line_scanner for_scan contains counts check_err
count_pings = refl

count_disseminations :
    count_analysis line_scanner match_text 20 (open_lines stats none) (codes "changes.disseminate")
    ≡ ok 4
unfolding count_analysis line_scanner for_scan contains counts check_err
count_disseminations = refl

abbrev checksums : List Bytes
checksums =
    []
    ∷ codes "2016-06-17T11:29:18.254046798Z|ringpop.172_18_24_192_3005.checksum:4321|g"
    ∷ codes "2016-06-17T11:29:18.254046798Z|ringpop.172_18_24_192_3002.checksum:1234|g"
    ∷ codes "2016-06-17T11:29:18.254046798Z|ringpop.172_18_24_192_3000.checksum:1000|g"
    ∷ codes "2016-06-17T11:29:18.254046798Z|ringpop.172_18_24_192_3001.checksum:1234|g"
    ∷ codes "2016-06-17T11:29:18.254046798Z|ringpop.172_18_24_192_3003.checksum:1234|g"
    ∷ codes "2016-06-17T11:29:18.254046798Z|ringpop.172_18_24_192_3004.checksum:4321|g"
    ∷ codes "2016-06-17T11:29:18.254046798Z|ringpop.172_18_24_192_3006.checksum:4321|g"
    ∷ []

three_checksums : checksums_analysis line_scanner 20 (open_lines checksums none) ≡ ok 3
unfolding checksums_analysis line_scanner for_scan contains checksum_line store_checksum bytes_eq
    ringpop_common.Analysis.Host.find_host check_err uniq gather insert add_value
three_checksums = refl

abbrev changes : List Bytes
changes =
    []
    ∷ codes "2016-06-17T11:29:15.0Z|ringpop.172_18_24_192_3000.noise"
    ∷ codes "2016-06-17T11:29:16.0Z|ringpop.172_18_24_192_3000.noise"
    ∷ codes "2016-06-17T11:29:17.0Z|ringpop.172_18_24_192_3000.noise"
    ∷ codes "2016-06-17T11:29:18.0Z|ringpop.172_18_24_192_3000.membership-set.suspect:1|c"
    ∷ codes "2016-06-17T11:29:19.0Z|ringpop.172_18_24_192_3001.membership-set.suspect:1|c"
    ∷ codes "2016-06-17T11:29:20.0Z|ringpop.172_18_24_192_3002.membership-set.suspect:1|c"
    ∷ codes "2016-06-17T11:29:21.0Z|ringpop.172_18_24_192_3002.membership-set.suspect:1|c"
    ∷ codes "2016-06-17T11:29:21.0Z|ringpop.172_18_24_192_3000.noise"
    ∷ codes "2016-06-17T11:29:21.0Z|ringpop.172_18_24_192_3000.noise"
    ∷ codes "2016-06-17T11:29:22.0Z|ringpop.172_18_24_192_3003.membership-set.suspect:1|c"
    ∷ codes "2016-06-17T11:29:23.0Z|ringpop.172_18_24_192_3003.membership-set.suspect:1|c"
    ∷ codes "2016-06-17T11:29:24.0Z|ringpop.172_18_24_192_3003.membership-set.suspect:1|c"
    ∷ codes "2016-06-17T11:29:25.0Z|ringpop.172_18_24_192_3004.membership-set.suspect:1|c"
    ∷ codes "2016-06-17T11:29:26.0Z|ringpop.172_18_24_192_3005.membership-set.suspect:1|c"
    ∷ codes "2016-06-17T11:29:27.0Z|ringpop.172_18_24_192_3000.noise"
    ∷ codes "2016-06-17T11:29:28.0Z|ringpop.172_18_24_192_3000.noise"
    ∷ codes "2016-06-17T11:29:29.0Z|ringpop.172_18_24_192_3000.noise"
    ∷ []

eight_seconds :
    convergence_time_analysis line_scanner 20 (open_lines changes none) ≡ ok (pos 8000000000)
unfolding convergence_time_analysis line_scanner for_scan contains scan_until converge bytes_eq
    keep_change check_err time_diff whole_millis time_sub
eight_seconds = rw (parse_time_examples.0, parse_time_examples.1) refl

abbrev disseminations : List Bytes
disseminations =
    []
    ∷ codes "2016-06-15T16:11:08.198191045Z|ringpop.172_18_24_220_3000.changes.disseminate:0|g"
    ∷ codes "2016-06-15T16:11:08.198191045Z|ringpop.172_18_24_220_3001.changes.disseminate:0|g"
    ∷ codes "2016-06-15T16:11:08.198191045Z|ringpop.172_18_24_220_3002.changes.disseminate:0|g"
    ∷ []
    ∷ codes "2016-06-15T16:11:08.198191045Z|ringpop.172_18_24_220_3000.changes.disseminate:1|g"
    ∷ codes "2016-06-15T16:11:08.198191045Z|ringpop.172_18_24_220_3001.changes.disseminate:1|g"
    ∷ codes "2016-06-15T16:11:08.198191045Z|ringpop.172_18_24_220_3002.changes.disseminate:1|g"
    ∷ []
    ∷ codes "2016-06-15T16:11:08.198191045Z|ringpop.172_18_24_220_3000.changes.disseminate:0|g"
    ∷ codes "2016-06-15T16:11:08.198191045Z|ringpop.172_18_24_220_3001.changes.disseminate:0|g"
    ∷ codes "2016-06-15T16:11:08.198191045Z|ringpop.172_18_24_220_3002.changes.disseminate:1|g"
    ∷ []

abbrev two_hosts : List Bytes
two_hosts = codes "172.18.24.220:3000" ∷ codes "172.18.24.220:3001" ∷ []

-- the stable states of three hosts and of the first two, as the first example prints them
abbrev stability : Outcome (Bool × Bool)
stability = do
  r ← ingest_stats file line_scanner 20 (new_stat_ingester []) (open_lines disseminations none)
  ok (
    is_cluster_stable r.0 (two_hosts ++ (codes "172.18.24.220:3002" ∷ [])),
    is_cluster_stable r.0 two_hosts,
  )

false_then_true : stability ≡ ok (false, true)
unfolding ingest_stats is_cluster_stable line_scanner for_scan
false_then_true = refl

abbrev is_done : Phase → Bool
is_done done = true
is_done _ = false

-- whether the wait of the second example has returned after three of its steps
abbrev waited : Outcome Bool
waited = do
  r ← ingest_stats file line_scanner 20 (new_stat_ingester []) (open_lines disseminations none)
  w ← run two_hosts (in_phase two_hosts await_unstable r.0) (turn ∷ turn ∷ turn ∷ [])
  ok (is_done w.phase)

wait_returns : waited ≡ ok true
unfolding ingest_stats run is_cluster_stable line_scanner for_scan
wait_returns = refl

abbrev two_seconds : Option (Assertion Whole)
two_seconds = some (record { kind = is_type; v1 = duration (pos 2000000000); v2 = nil })

is_two_seconds :
    (assert_value whole two_seconds (duration (pos 2000000000)) ≡ ok tt)
    × (assert_value whole two_seconds (duration (pos 0)) ≡ err not_expected)
    × (assert_value whole two_seconds (duration (pos 3000000000)) ≡ err not_expected)
unfolding assert_value equals_assert deep_equal bytes_eq
is_two_seconds = (refl, refl, refl)

abbrev float : ℕ → Value Whole
float n = number (some (pos n))

abbrev one_to_three : Option (Assertion Whole)
one_to_three = some (record { kind = in_type; v1 = float 1; v2 = float 3 })

in_one_to_three :
    (assert_value whole one_to_three (float 0) ≡ err not_in_range)
    × (assert_value whole one_to_three (float 1) ≡ ok tt)
    × (assert_value whole one_to_three (float 2) ≡ ok tt)
    × (assert_value whole one_to_three (float 3) ≡ ok tt)
    × (assert_value whole one_to_three (float 4) ≡ err not_in_range)
    × (assert_value whole one_to_three (duration (pos 2000000000)) ≡ err type_mismatch)
unfolding assert_value range_assert to_float64 bytes_eq
in_one_to_three = (refl, refl, refl, refl, refl, refl)
