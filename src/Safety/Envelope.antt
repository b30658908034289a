-- ===== src/Safety/Envelope.antt =====
-- internal/safety/envelope.go: the structured error of a violation, with its escalation hint. Of the
-- fields of `output.Error`, the ones that `Envelope` sets.
pub mod Escalation
use Prim.Native.String.{◌++◌}
use sql_ai_tools.Prelude.{String, Option, none, some, List, [], ◌∷◌}
use sql_ai_tools.Safety.Mode.{Mode, read_only, safe_write, full_access, token}
use sql_ai_tools.Safety.Allowlist.{
  Operation, op_explain, op_execute, op_token, ViolationKind, kind_other, kind_write, kind_schema,
  kind_privilege, kind_cluster_admin, kind_nested_explain, kind_unimplemented, kind_bad_op_input,
  Violation,
}

-- The inner switch on `v.Kind` under read_only, for the two operations that have a matrix.
read_only_target : Operation → ViolationKind → Option Mode
read_only_target op_explain kind_write = some safe_write
read_only_target op_explain kind_schema = some safe_write
read_only_target op_explain kind_privilege = some full_access
read_only_target op_explain kind_cluster_admin = some full_access
read_only_target op_execute kind_write = some safe_write
read_only_target op_execute kind_schema = some full_access
read_only_target op_execute kind_privilege = some full_access
read_only_target op_execute kind_cluster_admin = some full_access
read_only_target _ _ = none

safe_write_target : Operation → ViolationKind → Option Mode
safe_write_target op_explain kind_schema = some full_access
safe_write_target op_explain kind_privilege = some full_access
safe_write_target op_explain kind_cluster_admin = some full_access
safe_write_target op_execute kind_schema = some full_access
safe_write_target op_execute kind_privilege = some full_access
safe_write_target op_execute kind_cluster_admin = some full_access
safe_write_target _ _ = none

by_mode : Mode → Operation → ViolationKind → Option Mode
by_mode read_only op kind = read_only_target op kind
by_mode safe_write op kind = safe_write_target op kind
by_mode _ op kind = none

-- `escalationTargetFor` over the three fields that it reads.
target_for : Mode → Operation → ViolationKind → Option Mode
unfolding by_mode read_only_target safe_write_target
target_for mode op kind_nested_explain = none
target_for mode op kind_unimplemented = none
target_for mode op kind_bad_op_input = none
target_for mode op kind_other = none
target_for mode op kind = by_mode mode op kind

unfoldable pub escalation_target_for : Violation → Option Mode
unfolding target_for
escalation_target_for v = target_for v.mode v.op v.kind

-- The two fields of `output.Suggestion` that are set; the range is the zero range.
pub record ModeSuggestion : Type 0 where
  pub replacement : String
  pub reason : String

suggestion_of : Option Mode → List ModeSuggestion
unfolding token
suggestion_of none = []
suggestion_of (some target) =
    record { replacement = token target; reason = "safety_mode_escalation" } ∷ []

unfoldable pub suggestions_for : Violation → List ModeSuggestion
unfolding suggestion_of escalation_target_for
suggestions_for v = suggestion_of (escalation_target_for v)

unfoldable pub format_message : Violation → String
unfolding token op_token
format_message v =
    "safety violation: "
    ++ (v.reason
        ++ (" ("
            ++ (v.tag ++ (", mode=" ++ (token v.mode ++ (", op=" ++ (op_token v.op ++ ")")))))))

unfoldable pub context_map : Violation → List (String × String)
unfolding token op_token
context_map v =
    ("tag", v.tag)
    ∷ (("mode", token v.mode) ∷ (("operation", op_token v.op) ∷ (("reason", v.reason) ∷ [])))

pub record SafetyError : Type 0 where
  pub code : String
  pub severity : String
  pub message : String
  pub category : String
  pub context : List (String × String)
  pub suggestions : List ModeSuggestion

unfoldable pub envelope : Violation → SafetyError
unfolding format_message context_map suggestions_for
envelope v = record {
  code = "safety_violation";
  severity = "ERROR";
  message = format_message v;
  category = "safety";
  context = context_map v;
  suggestions = suggestions_for v;
}
