-- ===== src/Lib.antt =====
-- Diablo is a benchmark tool for blockchains. A primary (core/nprimary.go) reads a setup and a
-- benchmark, connects to its secondaries (core/nsecondary.go), tells them which clients to create and
-- which interactions to trigger at which times, starts them, and collects the results
-- (core/result.go). The two talk over a connection (core/net.go) in the messages of core/encoding.go.
-- What a benchmark leaves to chance it draws from random variables (core/builtin.go,
-- core/variable.go).
--
-- The modules and the code that they are about:
-- Prelude: native numbers, lists, integers and maps as association lists, in insertion order. A Go map
--   is iterated in no fixed order: every order is one such list.
-- Float: `float64` as its bit pattern, with the comparison that the code makes.
-- Wire: `io.Writer` and `io.Reader`. A writer has room for some bytes and fails on the write that does
--   not fit; a parser is a function from the bytes that are left. Parses and Takes are the rules by
--   which decoders are read.
-- Message: core/encoding.go, a module for each group of messages; `check_...` are the guards of an
--   `encode`, `..._chunks` its writes.
-- Report: core/result.go.
-- Primary: core/nprimary.go, its remoteSecondary and remoteClient; Collect is `collect`, Script the calls
--   that a benchmark makes, Duration and Latest the duration that `Run` computes.
-- Secondary: core/nsecondary.go; Prepared and Ends are about `prepare`, Lifecycle and Reports about the
--   reports of an interaction and `stop`.
-- Session: both ends of a connection: Handshake the first messages, Session the preparation, Results
--   the end of a benchmark.
-- Schedule: `run` of core/nsecondary.go up to the last interaction that it triggers: Stable is about its
--   sort by time, Run about the loop. The clock and `time.Sleep` are a parameter (`Clock`, with `IsClock`
--   for what the standard library says of them).
-- Random: `uniformDistribution` of core/builtin.go.
-- Sample: `elementSample` and `newFilteredElementSample` of core/builtin.go.
-- Setup: `buildParsedSetup` of core/setup.go.
-- Variable: core/variable.go, `Get` and the typed variables, the integer constants of it, and the integer
--   sample of core/builtin.go (Range).
-- Scope: core/scope.go, and the aliases of core/benchmark.go, which read variables from a scope.
-- Declare: `parseVariable` of core/variable.go, with which `parse` of a scope reads its children. Copies is
--   about the copies that it declares, Integers about the variables over a range of integers.
-- View: `parseView` of core/benchmark.go once its variable is found.
-- Expression: the expressions of core/benchmark.go, with `parseBenchmarkYaml` in Parse. Fields is about
--   the fields of a mapping that was read, Readable about the files that are read without an error,
--   Follow about the errors of a chain of `Field` calls.
-- Fuse: `fuseGenerators` of core/benchmark.go.
-- Benchmark: `generate` and `instantiate` of core/benchmark.go, from the loads to the calls of
--   `sendInteraction`. Generate is about the order of the interactions, Commands about what each secondary
--   gets.
-- Workload: core/workload/workload.go.
-- Config: the types of core/configs/bench.go, and core/configs/validators/benchvalidator.go.
-- Producer: `workloadProducer` of core/handlers/workloadhandler.go.
-- Util: the readers and writers of util/io.go.
-- Ethereum: blockchains/nethereum. Transaction, Nonce, Parameters and Signing are transaction.go, Builder is
--   builder.go with `arguments` of contract.go, Client and Confirmer are client.go. Client.Trigger follows
--   a payload from the builder to its submission; Builder.Nonces and Builder.Deployments are about the
--   nonces that the builder gives out, Confirmer.Once and Confirmer.Delivery about the reports.
-- Tests: the theorems at concrete inputs.
--
-- The confirmer is a step function: an event is what one goroutine does between two operations that block,
-- and a step that would have to wait is none. Any list of events is an interleaving.
--
-- Loops over a stream run on fuel, one more than the bytes of the stream: each round takes a byte at
-- least, so the fuel is enough. An error is a constructor of Wire.Errors.Error with the values that
-- its message prints; a panic of the runtime is an error as well.
--
-- `fuse_generators` runs on fuel too, one step for each interaction and one more, as `fuse_all` gives it;
-- `parse_view` on as many draws as there are endpoints and one more; `tick_loop` on one tick for each
-- interval.
--
-- Parameters: the YAML library (the nodes of a file, with what `Decode` makes of each), the blockchain
-- (`Blockchain`), the order in which goroutines finish (`arrivals` of `prepare`), the numbers that
-- `rand.Int` draws, the regular expressions of a filter, the conversions of a duration to
-- seconds and of an int to a float, `os.Stat` of a file, the factories of the samples that are not
-- integers (`others` of `sample_factory_of`), and the factory of interactions (`instance_of`).
-- Of Ethereum: go-ethereum (`Library`, with `IsDocumented` for what it says of bytes), the answers of the
-- node, the compiler of contracts, the process that encodes arguments, and base64. A list of
-- answers to polls stands for the waiting; `out_of_fuel` is its end.
-- The factories of interactions and of the samples that are not integers are part of the repository, but
-- stand here as parameters.
-- Not modelled: buffers of a connection (a flush does nothing), accepting connections, observers, the
-- timeout at the end of a run, the warnings of delay and skew, logging, the parsers of workloads, the generator of a load over time, and the
-- clients of the other blockchains.
pub mod Prelude
pub mod Float
pub mod Wire
pub mod Message
pub mod Report
pub mod Primary
pub mod Secondary
pub mod Session
pub mod Random
pub mod Fuse
pub mod Benchmark
pub mod Schedule
pub mod Sample
pub mod Setup
pub mod Variable
pub mod Scope
pub mod View
pub mod Workload
pub mod Config
pub mod Producer
pub mod Util
pub mod Ethereum
pub mod Expression
pub mod Declare
pub mod Tests
