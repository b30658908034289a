-- ===== src/Tests/Simulate.antt =====
-- A simulation against clusters that answer and that do not.
use sql_ai_tools.Safety.Allowlist.{check_parsed, classify}
use sql_ai_tools.Prelude.{◌≡◌, refl, Bool, true, false, List, [], ◌∷◌, codes, All}
use sql_ai_tools.Safety.Statement.{Statement, StatementType, ddl, dml, other}
use sql_ai_tools.Simulate.{
  Target, Input, alter_table, other_node, dial, explain_analyze, explain, explain_ddl, statistics,
  Manager, Cluster, connect_failed, simulate,
}
use sql_ai_tools.Simulate.Gated.{Harmless, Reports, simulate-Harmless}

abbrev statement : StatementType → Bool → Statement
statement type writes = record {
  node = other;
  tag = "T";
  statement_type = type;
  modifies_schema = false;
  writes_data = writes;
}

abbrev users : Target
users = record { schema = []; table = codes "users" }

abbrev query : Input
query = record { statement = statement dml false; sql = codes "SELECT 1"; node = other_node }

abbrev insertion : Input
insertion = record { statement = statement dml true; sql = codes "INSERT"; node = other_node }

abbrev alteration : Input
alteration = record {
  statement = statement ddl false;
  sql = codes "ALTER";
  node = alter_table users;
}

abbrev inputs : List Input
inputs = query ∷ insertion ∷ alteration ∷ []

abbrev idle : Manager
idle = record { connected = false; log = [] }

abbrev up : Cluster
up log r = true

abbrev down : Cluster
down log r = false

-- Plain EXPLAIN fails, and everything else succeeds.
abbrev flaky : Cluster
flaky log (explain i) = false
flaky log _ = true

up_run :
    (simulate up inputs idle).0.log
    ≡ statistics users
      ∷ explain_ddl alteration
      ∷ explain insertion
      ∷ explain_analyze query
      ∷ dial
      ∷ []
unfolding simulate
up_run = refl

down_run : (simulate down inputs idle).1 ≡ connect_failed
unfolding simulate
down_run = refl

-- After a failure the next step dials again.
flaky_run :
    (simulate flaky inputs idle).0.log
    ≡ statistics users
      ∷ explain_ddl alteration
      ∷ dial
      ∷ explain insertion
      ∷ explain_analyze query
      ∷ dial
      ∷ []
unfolding simulate
flaky_run = refl

simulate-Harmless_example :
    All Harmless (simulate flaky inputs idle).0.log × Reports inputs (simulate flaky inputs idle).1
unfolding check_parsed classify
simulate-Harmless_example = simulate-Harmless flaky inputs refl idle tt
