-- ===== src/Simulate.antt =====
-- internal/conn/simulate.go, and `connect` of manager.go: each statement of a simulation is sent under
-- the flavour of EXPLAIN that its kind allows. What a cluster answers to a request is an argument, by
-- the requests before it; a request stands for the transaction that its method runs, with the query.
pub mod Gated
use sql_ai_tools.Prelude.{
  Bool, true, false, List, [], ◌∷◌, ◌++◌, Option, none, some, Bytes, map, if◌then◌else◌,
}
use sql_ai_tools.Safety.Statement.{Statement, StatementType, ddl, dml, dcl, tcl}

-- `ddlTarget`.
pub record Target : Type 0 where
  pub schema : Bytes
  pub table : Bytes

-- The trees that `ddlTargets` distinguishes, with the names it reads.
pub data DdlNode : Type 0 where
  alter_table create_index : Target → DdlNode
  drop_table drop_index : List Target → DdlNode
  other_node : DdlNode

-- A statement of the parsed list, with its text.
pub record Input : Type 0 where
  pub statement : Statement
  pub sql : Bytes
  pub node : DdlNode

pub data Request : Type 0 where
  dial : Request
  explain_analyze explain explain_ddl : Input → Request
  statistics : Target → Request

-- `Manager`: whether it has a connection; the log is what was sent, the last first.
pub record Manager : Type 0 where
  pub connected : Bool
  pub log : List Request

-- Whether the request succeeds after those before it.
abbrev pub Cluster : Type 0
Cluster = List Request → Request → Bool

-- The request is sent; without success there is no connection afterwards.
unfoldable pub sent : Cluster → Request → Manager → Manager × Bool
sent cluster r m = (record { connected = cluster m.log r; log = r ∷ m.log }, cluster m.log r)

-- `connect`.
unfoldable pub connect : Cluster → Manager → Manager × Bool
unfolding sent
connect cluster m = if m.connected then (m, true) else sent cluster dial m

-- `Explain`, `ExplainAnalyze`, `ExplainDDL` and `GetTableStats`: connect, run, and close on an error.
unfoldable pub request : Cluster → Request → Manager → Manager × Bool
unfolding connect sent
request cluster r m = let (n, ok) = connect cluster m in if ok then sent cluster r n else (n, false)

-- `ddlTargets`.
unfoldable pub ddl_targets : DdlNode → List Target
ddl_targets (alter_table t) = t ∷ []
ddl_targets (create_index t) = t ∷ []
ddl_targets (drop_table ts) = ts
ddl_targets (drop_index ts) = ts
ddl_targets other_node = []

-- The targets with statistics, and those whose lookup failed.
pub record Stats : Type 0 where
  pub found : List Target
  pub failures : List Target

unfoldable pub add_stat : Target → Bool → Stats → Stats
add_stat t true s = record s { found = t ∷ s.found }
add_stat t false s = record s { failures = t ∷ s.failures }

-- `collectDDLTableStats`.
unfoldable pub collect_stats : Cluster → List Target → Manager → Manager × Stats
unfolding request add_stat
collect_stats cluster [] m = (m, record { found = []; failures = [] })
collect_stats cluster (t ∷ ts) m =
    let (n, ok) = request cluster (statistics t) m in
    let (k, stats) = collect_stats cluster ts n in (k, add_stat t ok stats)

pub data Strategy : Type 0 where
  by_explain_analyze by_explain by_explain_ddl : Strategy

pub data StepError : Type 0 where
  plan_failed no_route : StepError

pub record Step : Type 0 where
  pub strategy : Option Strategy
  pub error : Option StepError
  pub stats : Option Stats

abbrev pub plan_step : Strategy → Bool → Step
plan_step strategy ok = record {
  strategy = some strategy;
  error = if ok then none else some plan_failed;
  stats = none;
}

unfoldable pub plan_with : Cluster → Strategy → Request → Manager → Manager × Step
unfolding request
plan_with cluster strategy r m = let (n, ok) = request cluster r m in (n, plan_step strategy ok)

-- The statistics of a step's targets, unless the step has an error.
unfoldable pub annotate : Cluster → List Target → Manager → Step → Option StepError → Manager × Step
unfolding collect_stats
annotate cluster ts m step none =
    let (n, stats) = collect_stats cluster ts m in (n, record step { stats = some stats })
annotate cluster ts m step (some e) = (m, step)

unfoldable pub route : Cluster → StatementType → Input → Manager → Manager × Step
unfolding plan_with annotate ddl_targets
route cluster ddl i m =
    let (n, step) = plan_with cluster by_explain_ddl (explain_ddl i) m in
    annotate cluster (ddl_targets i.node) n step step.error
route cluster dml i m =
    if i.statement.writes_data
    then plan_with cluster by_explain (explain i) m
    else plan_with cluster by_explain_analyze (explain_analyze i) m
route cluster _ i m = (m, record { strategy = none; error = some no_route; stats = none })

-- `dispatchSimulateStep`.
unfoldable pub dispatch_simulate_step : Cluster → Input → Manager → Manager × Step
unfolding route
dispatch_simulate_step cluster i m = route cluster i.statement.statement_type i m

unfoldable pub simulate_steps : Cluster → List Input → Manager → Manager × List Step
unfolding dispatch_simulate_step
simulate_steps cluster [] m = (m, [])
simulate_steps cluster (i ∷ inputs) m =
    let (n, step) = dispatch_simulate_step cluster i m in
    let (k, steps) = simulate_steps cluster inputs n in (k, step ∷ steps)

pub data Simulated : Type 0 where
  no_statements connect_failed : Simulated
  simulated : List Step → Simulated

unfoldable pub simulate_connected : Cluster → List Input → Manager × Bool → Manager × Simulated
unfolding simulate_steps
simulate_connected cluster inputs (m, false) = (m, connect_failed)
simulate_connected cluster inputs (m, true) =
    let (n, steps) = simulate_steps cluster inputs m in (n, simulated steps)

-- `Simulate`, from the parsed statements on.
unfoldable pub simulate : Cluster → List Input → Manager → Manager × Simulated
unfolding simulate_connected connect
simulate cluster [] m = (m, no_statements)
simulate cluster (i ∷ inputs) m = simulate_connected cluster (i ∷ inputs) (connect cluster m)
