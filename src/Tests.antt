-- ===== src/Tests.antt =====
-- The theorems about cluster-test/test-orchestrator at concrete inputs: the scanners and analyses on a
-- short stats file, the ingester on the stats of two nodes, the parser on a test file,
-- and a whole scenario, from its stats to what is measured of it.
mod Stats
mod Ingest
mod Wait
mod Threads
mod Served
mod Examples
mod Parse
mod Words
mod Scenario
mod Measure
mod Verdict
