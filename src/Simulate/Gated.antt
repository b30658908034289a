-- ===== src/Simulate/Gated.antt =====
-- What a simulation sends to a cluster behind the safety gate.
use sql_ai_tools.Prelude.{
  ◌≡◌, ◌≢◌, ◌⊎◌, inl, inr, refl, ap, suc, Bool, true, false, List, [], ◌∷◌, map, length, Option,
  none, some, All, arith, if◌then◌else◌,
}
use sql_ai_tools.Safety.Mode.{read_only}
use sql_ai_tools.Safety.Statement.{Statement, StatementType, ddl, dml, dcl, tcl, is_explain}
use sql_ai_tools.Safety.Allowlist.{op_simulate, check_parsed}
use sql_ai_tools.Safety.Gate.{check_parsed-simulate}
use sql_ai_tools.Simulate.{
  Target, Input, Request, dial, explain_analyze, explain, explain_ddl, statistics, Manager, Cluster,
  sent, connect, request, ddl_targets, collect_stats, Step, StepError, no_route, Strategy,
  by_explain, by_explain_analyze, by_explain_ddl, plan_with, plan_step, annotate, route,
  dispatch_simulate_step, simulate_steps, Simulated, connect_failed, simulated, simulate_connected,
  simulate,
}

-- The request executes no write: what EXPLAIN ANALYZE executes is no EXPLAIN wrapper and writes no
-- data, and the other flavours are sent for what they only plan.
abbrev pub Harmless : Request → Type 0
Harmless (explain_analyze i) =
    (i.statement.statement_type ≡ dml)
    × (i.statement.writes_data ≡ false)
    × (is_explain i.statement.node ≡ false)
Harmless (explain i) = (i.statement.statement_type ≡ dml) × (i.statement.writes_data ≡ true)
Harmless (explain_ddl i) = i.statement.statement_type ≡ ddl
Harmless _ = Unit

abbrev Safe : Manager → Type 0
Safe m = All Harmless m.log

-- What the gate admits.
abbrev Admitted : Statement → Type 0
Admitted s = (is_explain s.node ≡ false) × ((s.statement_type ≡ ddl) ⊎ (s.statement_type ≡ dml))

abbrev pub Routed : Step → Type 0
Routed s = s.error ≢ some no_route

if-Safe :
    {A : Type 0} (b : Bool) (x y : Manager × A) → Safe x.0 → Safe y.0 → Safe (if b then x else y).0
if-Safe true x y hx hy = hx
if-Safe false x y hx hy = hy

connect-Safe : (cluster : Cluster) (m : Manager) → Safe m → Safe (connect cluster m).0
unfolding connect sent
connect-Safe cluster m h = if-Safe m.connected (m, true) (sent cluster dial m) h (tt, h)

request-Safe :
    (cluster : Cluster) (r : Request) (m : Manager)
    → Harmless r
    → Safe m
    → Safe (request cluster r m).0
unfolding request sent
request-Safe cluster r m hr h =
    let c = connect-Safe cluster m h in
    if-Safe (connect cluster m).1 (sent cluster r (connect cluster m).0)
      ((connect cluster m).0, false) (hr, c) c

collect_stats-Safe :
    (cluster : Cluster) (ts : List Target) (m : Manager)
    → Safe m
    → Safe (collect_stats cluster ts m).0
unfolding collect_stats
collect_stats-Safe cluster [] m h = h
collect_stats-Safe cluster (t ∷ ts) m h =
    collect_stats-Safe cluster ts (request cluster (statistics t) m).0
      (request-Safe cluster (statistics t) m tt h)

-- The step is safe, and it has a route.
abbrev SafeStep : Manager × Step → Type 0
SafeStep r = Safe r.0 × Routed r.1

plan_step-Routed : (strategy : Strategy) (ok : Bool) → Routed (plan_step strategy ok)
plan_step-Routed strategy true e = cc
plan_step-Routed strategy false e = cc

plan_with-SafeStep :
    (cluster : Cluster) (strategy : Strategy) (r : Request) (m : Manager)
    → Harmless r
    → Safe m
    → SafeStep (plan_with cluster strategy r m)
unfolding plan_with
plan_with-SafeStep cluster strategy r m hr h =
    (request-Safe cluster r m hr h, plan_step-Routed strategy (request cluster r m).1)

annotate-SafeStep :
    (cluster : Cluster) (ts : List Target) (m : Manager) (step : Step) (o : Option StepError)
    → SafeStep (m, step)
    → SafeStep (annotate cluster ts m step o)
unfolding annotate
annotate-SafeStep cluster ts m step none h = (collect_stats-Safe cluster ts m h.0, h.1)
annotate-SafeStep cluster ts m step (some x) h = h

writes-SafeStep :
    (cluster : Cluster) (i : Input) (m : Manager) (b : Bool)
    → i.statement.writes_data ≡ b
    → i.statement.statement_type ≡ dml
    → is_explain i.statement.node ≡ false
    → Safe m
    → SafeStep (
        if b
        then plan_with cluster by_explain (explain i) m
        else plan_with cluster by_explain_analyze (explain_analyze i) m)
writes-SafeStep cluster i m true b t e h =
    plan_with-SafeStep cluster by_explain (explain i) m (t, b) h
writes-SafeStep cluster i m false b t e h =
    plan_with-SafeStep cluster by_explain_analyze (explain_analyze i) m (t, b, e) h

route-SafeStep :
    (cluster : Cluster) (t : StatementType) (i : Input) (m : Manager)
    → i.statement.statement_type ≡ t
    → Admitted i.statement
    → Safe m
    → SafeStep (route cluster t i m)
unfolding route
route-SafeStep cluster ddl i m e a h =
    let planned = plan_with-SafeStep cluster by_explain_ddl (explain_ddl i) m e h in
    annotate-SafeStep cluster (ddl_targets i.node) _ _ _ planned
route-SafeStep cluster dml i m e a h =
    writes-SafeStep cluster i m i.statement.writes_data refl e a.0 h
route-SafeStep cluster dcl i m e a h = absurd (ground (arith, e, a.1))
route-SafeStep cluster tcl i m e a h = absurd (ground (arith, e, a.1))

-- The steps are safe, each has a route, and there is one for each statement.
abbrev SafeSteps : List Input → Manager × List Step → Type 0
SafeSteps inputs r = Safe r.0 × All Routed r.1 × (length r.1 ≡ length inputs)

simulate_steps-SafeSteps :
    (cluster : Cluster) (inputs : List Input) (m : Manager)
    → All Admitted (map (λ (i : Input). i.statement) inputs)
    → Safe m
    → SafeSteps inputs (simulate_steps cluster inputs m)
unfolding simulate_steps dispatch_simulate_step
simulate_steps-SafeSteps cluster [] m a h = (h, tt, refl)
simulate_steps-SafeSteps cluster (i ∷ inputs) m a h =
    let one = route-SafeStep cluster i.statement.statement_type i m refl a.0 h in
    let rest =
      simulate_steps-SafeSteps cluster inputs (dispatch_simulate_step cluster i m).0 a.1 one.0 in
    (rest.0, (one.1, rest.1), ap suc rest.2)

-- The connection fails, or every statement has its step.
abbrev pub Reports : List Input → Simulated → Type 0
Reports inputs r =
    (r ≡ connect_failed)
    ⊎ ((steps : List Step) × (r ≡ simulated steps)
        × All Routed steps
        × (length steps ≡ length inputs))

simulate_connected-Reports :
    (cluster : Cluster) (inputs : List Input) (r : Manager × Bool)
    → All Admitted (map (λ (i : Input). i.statement) inputs)
    → Safe r.0
    → Safe (simulate_connected cluster inputs r).0
      × Reports inputs (simulate_connected cluster inputs r).1
unfolding simulate_connected
simulate_connected-Reports cluster inputs (m, false) a h = (h, inl refl)
simulate_connected-Reports cluster inputs (m, true) a h =
    let all = simulate_steps-SafeSteps cluster inputs m a h in
    (all.0, inr ((simulate_steps cluster inputs m).1, refl, all.1, all.2))

-- Behind the gate and whatever the cluster answers, a simulation sends EXPLAIN ANALYZE, which executes
-- its statement, only for a statement that is no EXPLAIN wrapper and that by the parser's predicate
-- writes no data; plain EXPLAIN goes out for data changes and the DDL plan for schema changes. Either
-- the first connection fails, or each statement has its step and none is without a route, also after
-- steps that failed.
pub simulate-Harmless :
    (cluster : Cluster) (inputs : List Input)
    → check_parsed read_only op_simulate (map (λ (i : Input). i.statement) inputs) ≡ none
    → (m : Manager) → All Harmless m.log
    → All Harmless (simulate cluster inputs m).0.log × Reports inputs (simulate cluster inputs m).1
unfolding simulate
simulate-Harmless cluster [] e m h = absurd (((check_parsed-simulate []).0.0 e).0 refl)
simulate-Harmless cluster (i ∷ inputs) e m h =
    simulate_connected-Reports cluster (i ∷ inputs) (connect cluster m)
      ((check_parsed-simulate (map (λ (i : Input). i.statement) (i ∷ inputs))).0.0 e).1
      (connect-Safe cluster m h)
