-- ===== src/Lib.antt =====
-- Verification library of cluster-test/test-orchestrator, the Go program that runs test scenarios on a
-- cluster of ringpop nodes: it reads a file of scenarios, starts commands on the cluster, takes in
-- the stats that the nodes send, writes them to a file with a label line for each command, waits
-- until the cluster is stable again, and then measures the stats between two labels and checks the
-- result against an assertion.
--
-- The parts, each with the file or folder that models it (paths of the code are those of
-- cluster-test/test-orchestrator):
--  * test_yaml_parser.go: Yaml and Yaml/. `parse` and all functions below it, from a test file to
--    scenarios, those for a single measurement in Yaml/Measures. A function that panics returns
--    `panic` of an `Outcome`, `defer wrapPanicf` is `wrap_panic`, and the `recover` of `parse` is
--    `recovered` (Outcome). It calls the calculator for numbers and makes the commands, measurements
--    and assertions of the other parts.
--  * calc.go: Calc, Calc/Meaning. `Eval`, `eval` and `evalBin` over the nodes of go/ast.
--  * assertion.go: Assertion, Assertion/Range; the interface type `Value` of measurement.go: Value.
--  * command.go, scenario.go: Command, which also has the record of a measurement.
--  * section_scanner.go: Scanner has the interface `Scanner` as a record of its three methods over the
--    type of the scanner's state, and the two forms of `for s.Scan()` loops; Scanner/Section the
--    `SectionScanner`, itself such a record, around another scanner. Scanner/Lines is a scanner over
--    lines that are at hand, and Scanner/Loops says what a loop over a scanner does with its lines.
--  * udp_scanner.go: Scanner/Udp, one more `Scanner`, over a connection.
--  * stat_analysis.go: Analysis and Analysis/, with the expression for hosts in Analysis/Host and what
--    it uses of package time in Clock; Clock/Stamps has the times that the nodes print.
--    Analysis/Checksums/Hosts is on the host of a line, Analysis/Checksums/Cut on lines that are cut
--    short, and Analysis/Agreement on what each host reported last.
--  * measurement.go: Measurement and Measurement/: `Measure` wraps a section scanner around its
--    scanner and hands it to an analysis.
--  * stat_ingester.go: Ingester and Ingester/. `handleStat` and `IsClusterStable` hold the lock, so
--    each is one function of the ingester's state; Ingester/Wait has `WaitForStable` as steps
--    between which stats come in. Ingester/Reports reads single lines, Ingester/Stability
--    sequences of them, Ingester/Reordered is on their order, Ingester/Hosts on the names of hosts
--    in stats, Ingester/Fatal on the ends of the process, and Ingester/Datagrams has the ingester
--    behind a UDP scanner. Ingester/Session has stats and the labels of `InsertLabel` in any
--    order, each written by one call of the writer, and Ingester/Session/Measured what is measured
--    of the file that they make, the lines of which Ingester/Session/File reads as a
--    `bufio.Scanner` does. Ingester/Threads has the goroutines of the program as a relation between
--    states: a stat is handled in one step and written in another, and steps of the wait and labels
--    can come in between. Ingester/Threads/History is on all their runs, with the flag in
--    Ingester/Threads/Flag, Ingester/Threads/Returned on the end of a wait, Ingester/Threads/Serial
--    on these runs and those of Ingester/Wait, Ingester/Threads/Overtaken on one order of them, Ingester/Threads/Measured on the file that they make, and in Ingester/Threads/Fed and Served the
--    stats are the lines of a scanner.
--  * All of these together: Verdict and Verdict/Counts, a scenario from its stats to what its
--    assertions say, Verdict/Interleaved, the same of the goroutines, and Judged, a test file from its
--    text to its verdicts.
-- Common, Text (package strings), Float and Outcome are what these share; Tests has the theorems at
-- concrete inputs, and in Tests/Examples the examples of the Go tests with their outputs.
--
-- A Go string is a list of bytes; Go's int is an integer, with the bounds of int64 where the code
-- depends on them (`Atoi`, `Time.Sub`). A map is an association list in which a key stands once. A
-- loop over a scanner takes fuel, one unit for each call of `Scan`, and ends in `timeout` without; the
-- theorems on such loops take any fuel above the number of lines, and that is enough. All other loops
-- are by structural recursion.
--
-- Parameters, since their code is not in the repository: the operations of float64 with
-- `ParseFloat`, `parser.ParseExpr`, `time.ParseDuration`, `yaml.Unmarshal`, `regexp.MatchString` of a
-- pattern that the user writes, the writer of the stats file, and the connection of package net. What
-- a theorem asks of one of them stands among its hypotheses: that integers of 53 bits are exact as
-- float64, that a writer takes each line, which datagrams a connection receives.
--
-- Not modelled: the text of values that an error message prints with `%v`, the sleeping of
-- `WaitForStable`, the data races of the fields that it reads and writes without the lock beyond the
-- interleaving of its steps, a write to the file that is not one step, the JavaScript tests and tools
-- of the repository, its schemas and its documents.
pub mod Common
pub mod Text
pub mod Outcome
pub mod Float
pub mod Calc
pub mod Value
pub mod Assertion
pub mod Scanner
pub mod Clock
pub mod Analysis
pub mod Command
pub mod Measurement
pub mod Verdict
pub mod Judged
pub mod Ingester
pub mod Yaml
pub mod Tests
