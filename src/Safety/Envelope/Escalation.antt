-- ===== src/Safety/Envelope/Escalation.antt =====
-- The escalation hint of envelope.go against the decisions of allowlist.go.
use sql_ai_tools.Prelude.{◌≡◌, ◌≢◌, ◌⊎◌, ◌↔◌, true, none, some, arith}
use sql_ai_tools.Safety.Mode.{Mode, read_only, safe_write, full_access}
use sql_ai_tools.Safety.Statement.{Statement, is_explain}
use sql_ai_tools.Safety.Allowlist.{Operation, op_explain, op_execute, Violation, classify}
use sql_ai_tools.Safety.Gate.{is_direct}
use sql_ai_tools.Safety.Envelope.{escalation_target_for}

-- A violation names the tag, the mode and the operation of the call that it rejects.
pub classify_names :
    (mode : Mode) (op : Operation) (s : Statement) (v : Violation)
    → classify mode op s ≡ some v
    → (v.tag ≡ s.tag) × (v.mode ≡ mode) × (v.op ≡ op)
unfolding classify
classify_names mode op s v h = ground arith

-- The hint works and is the least: under the hinted mode the same operation admits the statement,
-- and the hint is full_access only where safe_write would reject it too.
pub escalation_exact :
    (mode target : Mode) (op : Operation) (s : Statement) (v : Violation)
    → classify mode op s ≡ some v
    → escalation_target_for v ≡ some target
    → (classify target op s ≡ none)
      × (target ≢ mode)
      × (target ≡ full_access → classify safe_write op s ≢ none)
unfolding classify escalation_target_for
escalation_exact mode target op s v h e = (ground arith, ground arith, λ f. ground arith)

-- For explain and execute under read_only or safe_write, a rejection carries no hint exactly when
-- the statement is an EXPLAIN wrapper; full_access admits the statement all the same.
escalation_missing :
    (mode : Mode) (op : Operation) (s : Statement) (v : Violation)
    → (mode ≡ read_only) ⊎ (mode ≡ safe_write)
    → is_direct op ≡ true
    → classify mode op s ≡ some v
    → ((escalation_target_for v ≡ none) ↔ (is_explain s.node ≡ true))
      × (classify full_access op s ≡ none)
unfolding classify escalation_target_for
escalation_missing mode op_explain s v m d h =
    ((λ e. ground arith, λ e. ground arith), ground arith)
escalation_missing mode op_execute s v m d h =
    ((λ e. ground arith, λ e. ground arith), ground arith)
escalation_missing mode _ s v m d h = absurd (ground arith)
