-- ===== src/Lib.antt =====
-- The Go program crdb-sql: tools that parse, check, format and run SQL for CockroachDB from a command
-- line and from an MCP server. This library models the parts of it that decide something by
-- themselves. Code outside the repository (the SQL parser, the operating system, the Go runtime) is an
-- argument of the definitions that use it.
--
-- Safety, internal/safety: before a statement reaches a cluster, `Check` (allowlist.go) parses the
-- text and classifies each statement by the mode and the operation. Safety/Mode.antt has the modes and
-- `ParseMode`, Safety/Statement.antt what the gate reads of a parsed statement, Safety/Allowlist.antt
-- the classifiers and `CheckParsed`. A violation becomes the error of Safety/Envelope.antt
-- (envelope.go), with a hint at the mode that would admit the statement. Safety/Limit.antt (limit.go)
-- puts a LIMIT on a lone unbounded SELECT that passed.
--
-- Simulate, internal/conn/simulate.go: behind that gate, each statement of a simulation goes to the
-- cluster under a flavour of EXPLAIN. The cluster is a function from the requests so far and the next
-- one to whether that succeeds.
--
-- Execute, internal/conn/execute.go and internal/mcp/tools/execute.go: Execute.antt runs one statement
-- in a transaction of the mode's shape. The driver is a function from the calls so far to what it
-- answers, and the model keeps the list of calls. Execute/Arguments.antt reads the arguments of the
-- tool execute_sql, Execute/Tool.antt is its handler: strip, parse, gate, LIMIT, TLS parameters, run.
-- Execute/Script.antt and Execute/Conversation.antt say which calls are made, Execute/Fits.antt and
-- Execute/Admitted.antt which of them the gate lets through. Tls, internal/conn/tls.go: the TLS
-- parameters that are merged into a connection string, with net/url as an argument.
--
-- Explain, internal/conn/explain_parse.go: the operators of a plan from the rows of EXPLAIN, by the
-- column of each bullet. Explain/Drawn.antt says how a plan is drawn, Explain/Spine.antt where the
-- pointers of the parser lead, Explain/Lines.antt what it reads in one row.
--
-- Shape, internal/conn/explain_ddl_parse.go: the operations and targets of a schema change from the
-- text of EXPLAIN (DDL, SHAPE).
--
-- Diag, internal/diag/error.go and category.go: errors of the parser, of the type checker and of a
-- cluster as entries of the envelope. Diag.antt has the three conversions, Diag/Runes.antt the token
-- and the character that a position names.
--
-- Route, internal/versionroute: one binary per quarter of the parser; the one that is called reads
-- the target version and runs the backend of its quarter. Route/Quarter.antt has quarters and their
-- texts, Route/Args.antt the scan of the arguments, Route/Built.antt how a binary knows its own
-- quarter, Route/Discover.antt the search for backends, Route/Reexec.antt the decision `maybeReexec`.
--
-- Version, internal/version and internal/output/version.go: Version/Target.antt checks a target
-- version where it is supplied; Version/Registry.antt has the version range of each feature, with the
-- panics of `NewRegistry` and `compareMajorMinor` as values, Version/Features.antt the seeded entries,
-- Version/Inspect.antt the detector of features and the warnings, Version/Inspect/Uses.antt which
-- features a statement uses.
--
-- Pool, internal/mcp/proxy/pool.go: `PoolRouter` maps a quarter to a warm backend, shared by
-- the threads of an MCP server. Pool.antt has the state and what is done under one mutex,
-- Pool/System.antt the threads: a `Dispatch`, a sweep of the janitor and `Close` go on in steps that
-- end where a mutex is taken or released or where the environment answers, and a list of events says
-- in which order, with the clock, the machine and the outcome of each start and call. An entry is a
-- number, so that a stale pointer is one too. Pool/Invariant.antt has the invariant of the pool,
-- Pool/Threads.antt what each thread knows where it stands, Pool/Ownership.antt who holds a mutex. A dispatch tries 18 times at most.
--
-- Mcp, internal/mcp/routing.go and `resolveTargetVersion` of internal/mcp/tools/tools.go: each tool
-- call of a server is answered by it or, through the pool, by the backend of the target's quarter.
--
-- Risk, internal/risk: rules over parsed statements. Risk/Tree.antt has what the rules read of the
-- parser's trees, Risk.antt `NewRegistry`, `AnalyzeParsed` and `positionFromSQL`, Risk/Rules.antt,
-- Risk/Selects.antt and Risk/Schema.antt the rules on one statement, Risk/Txn.antt those on explicit
-- transactions with `explicitTxnBlocks`, and Risk/Defaults.antt the default set. Risk/Between.antt
-- describes the slice of a block's statements.
--
-- Strip, internal/sqlformat/strip.go: shell prompts are cut from pasted text, and offsets in what is
-- left are mapped back. Strip/Prompt.antt has the two regular expressions as matchers by hand: every
-- repetition takes the longest run, which is what the expressions match, since no byte that may
-- follow a repetition is in its class.
--
-- Position and Suggest, internal/diag/position.go and suggest.go: lines and columns of an offset, and
-- the candidates close to a misspelled name by the Levenshtein distance. Keyword,
-- internal/diag/keywords.go: the same for keywords, by a distance that counts a transposition once.
--
-- Text and Prelude model the Go library's functions on strings that these use, and shared helpers.
-- Texts are lists of bytes, in Explain and Shape of code points. Numbers of Go's `int` are integers without a bound, except in `Atoi` and
-- `ParseUint`, which refuse what does not fit 64 and 32 bits, and in the timeout of a statement, which
-- wraps around at 64 bits; lengths and offsets are far below those bounds. Printing a number has fuel, one more than the number, and each step divides
-- by ten, so it is enough. All other functions are structural.
--
-- Not modelled: the lower case and white space of texts outside ASCII, the confidence of a suggestion
-- (a floating-point number), the texts of some errors, and the packages that run statements or speak
-- protocols (the rest of internal/conn and internal/mcp, cmd), inspect trees of the parser in depth
-- (internal/semcheck, internal/summarize), or hold generated tables (internal/builtinstubs). Of the
-- handler of execute_sql the warnings on versions, the translation of positions and the JSON are left
-- out, and the mode is given as `resolveSafetyMode` returns it.
pub mod Prelude
pub mod Text
pub mod Safety
pub mod Route
pub mod Strip
pub mod Position
pub mod Pool
pub mod Suggest
pub mod Execute
pub mod Shape
pub mod Diag
pub mod Explain
pub mod Tls
pub mod Keyword
pub mod Version
pub mod Tests
pub mod Risk
pub mod Mcp
pub mod Simulate
