-- ===== src/Risk.antt =====
-- internal/risk/registry.go: rules over parsed statements, and the findings they give. A panic is a
-- value; a rule's `Check` is a function or nil, and to call nil is a panic as well, `none`.
pub mod Tree
pub mod Rules
pub mod Selects
pub mod Schema
pub mod Txn
pub mod Defaults
pub mod Between
pub mod Blocks
pub mod Mixed
pub mod Registered
pub mod Stamped
pub mod Located
pub mod Critical
use sql_ai_tools.Prelude.{
  ℕ, ◌+◌, Bool, true, false, List, [], ◌∷◌, ◌++◌, Option, none, some, ◌>>=◌, Bytes, codes, length,
  take, drop, ◌⊎◌, inl, inr, if◌then◌else◌, ◌||◌,
}
use sql_ai_tools.Text.{bytes_eq, index}
-- `risk.Position` has the fields of `output.Position`.
use sql_ai_tools.Position.{Position, count_newlines, last_index, column_of}
use sql_ai_tools.Risk.Tree.{Ast, Statement}

-- `unstamped` is the empty string, which a finding has before the registry stamps it.
pub data Severity : Type 0 where
  critical high medium low info unstamped : Severity

pub record Finding : Type 0 where
  pub reason_code : Bytes
  pub severity : Severity
  pub message : Bytes
  pub position : Option Position
  pub fix_hint : Bytes

pub record CheckInput : Type 0 where
  pub ast : Ast
  pub stmt_sql : Bytes
  pub position : Position

pub record Rule : Type 0 where
  pub reason_code : Bytes
  pub severity : Severity
  pub category : Bytes
  pub check : Option (CheckInput → List Finding)

pub record MultiCheckInput : Type 0 where
  pub stmts : List Statement
  pub positions : List Position

pub record MultiRule : Type 0 where
  pub reason_code : Bytes
  pub severity : Severity
  pub category : Bytes
  pub check : Option (MultiCheckInput → List Finding)

pub record Registry : Type 0 where
  pub rules : List Rule
  pub multi_rules : List MultiRule

-- A rule's finding, before the registry stamps it.
abbrev pub draft : Bytes → Position → Bytes → Finding
draft message position fix_hint = record {
  reason_code = [];
  severity = unstamped;
  message = message;
  position = some position;
  fix_hint = fix_hint;
}

-- The panics of `NewRegistry`.
pub data Misconfigured : Type 0 where
  nil_check : Bytes → Misconfigured
  empty_reason_code : Misconfigured
  duplicate_reason_code : Bytes → Misconfigured
  nil_multi_check : Bytes → Misconfigured
  empty_multi_reason_code : Misconfigured

-- `seen[code]`.
unfoldable pub is_seen : Bytes → List Bytes → Bool
unfolding bytes_eq
is_seen code [] = false
is_seen code (c ∷ seen) = bytes_eq c code || is_seen code seen

unfoldable pub record_code : Misconfigured → Bytes → List Bytes → Misconfigured ⊎ List Bytes
unfolding is_seen
record_code empty [] seen = inl empty
record_code empty (c ∷ code) seen =
    if is_seen (c ∷ code) seen
    then inl (duplicate_reason_code (c ∷ code))
    else inr ((c ∷ code) ∷ seen)

-- The guards of one rule, with the panics for a nil check and for an empty code.
unfoldable pub guarded :
    {I : Type 0}
    → Misconfigured
    → Misconfigured
    → Option (I → List Finding)
    → Bytes
    → List Bytes
    → Misconfigured ⊎ List Bytes
unfolding record_code
guarded nil empty none code seen = inl nil
guarded nil empty (some check) code seen = record_code empty code seen

unfoldable pub add_rule : Rule → List Bytes → Misconfigured ⊎ List Bytes
unfolding guarded
add_rule rule seen =
    guarded (nil_check rule.reason_code) empty_reason_code rule.check rule.reason_code seen

unfoldable pub add_multi_rule : MultiRule → List Bytes → Misconfigured ⊎ List Bytes
unfolding guarded
add_multi_rule rule seen =
    guarded (nil_multi_check rule.reason_code) empty_multi_reason_code rule.check rule.reason_code
      seen

-- A loop over rules, which stops at the first panic.
unfoldable pub add_all :
    {A : Type 0}
    → (A → List Bytes → Misconfigured ⊎ List Bytes)
    → List A
    → Misconfigured ⊎ List Bytes
    → Misconfigured ⊎ List Bytes
add_all add rules (inl e) = inl e
add_all add [] (inr seen) = inr seen
add_all add (rule ∷ rules) (inr seen) = add_all add rules (add rule seen)

unfoldable pub made : Registry → Misconfigured ⊎ List Bytes → Misconfigured ⊎ Registry
made registry (inl e) = inl e
made registry (inr seen) = inr registry

-- `NewRegistry`.
unfoldable pub new_registry : List Rule → List MultiRule → Misconfigured ⊎ Registry
unfolding add_all made
new_registry rules multi_rules =
    made (record { rules = rules; multi_rules = multi_rules })
      (add_all add_multi_rule multi_rules (add_all add_rule rules (inr [])))

unfoldable pub placed : Bytes → Bytes → ℕ → Option ℕ → Position × ℕ
placed full stmt offset none = (record { line = 1; column = 1; byte_offset = offset }, offset)
placed full stmt offset (some idx) =
    let byte_off = offset + idx in
    let prefix = take byte_off full in
    (
      record {
        line = count_newlines prefix + 1;
        column = column_of (last_index prefix (10 ∷ [])) byte_off;
        byte_offset = byte_off;
      },
      byte_off + length stmt,
    )

-- `positionFromSQL`: the position, and the offset that it leaves behind.
unfoldable pub position_from_sql : Bytes → Bytes → ℕ → Position × ℕ
unfolding placed
position_from_sql full stmt offset = placed full stmt offset (index (drop offset full) stmt)

-- The findings of one rule, stamped with its reason code and severity.
unfoldable pub stamp : Bytes → Severity → List Finding → List Finding
stamp code severity [] = []
stamp code severity (f ∷ fs) =
    record f { reason_code = code; severity = severity } ∷ stamp code severity fs

unfoldable pub call_check :
    {I : Type 0} → Option (I → List Finding) → Bytes → Severity → I → Option (List Finding)
unfolding stamp
call_check none code severity input = none
call_check (some check) code severity input = some (stamp code severity (check input))

unfoldable pub run_rules : List Rule → CheckInput → Option (List Finding)
unfolding call_check
run_rules [] input = some []
run_rules (rule ∷ rules) input = do
  found ← call_check rule.check rule.reason_code rule.severity input
  later ← run_rules rules input
  some (found ++ later)

unfoldable pub run_multi_rules : List MultiRule → MultiCheckInput → Option (List Finding)
unfolding call_check
run_multi_rules [] input = some []
run_multi_rules (rule ∷ rules) input = do
  found ← call_check rule.check rule.reason_code rule.severity input
  later ← run_multi_rules rules input
  some (found ++ later)

-- The loop over the statements: the findings, and the positions.
unfoldable pub check_statements :
    List Rule → Bytes → ℕ → List Statement → Option (List Finding × List Position)
unfolding run_rules position_from_sql
check_statements rules sql offset [] = some ([], [])
check_statements rules sql offset (stmt ∷ stmts) =
    let (at, next) = position_from_sql sql stmt.sql offset in
    do
      found ← run_rules rules (record { ast = stmt.ast; stmt_sql = stmt.sql; position = at })
      rest ← check_statements rules sql next stmts
      some (found ++ rest.0, at ∷ rest.1)

-- `Registry.AnalyzeParsed`.
unfoldable pub analyze_parsed : Registry → List Statement → Bytes → Option (List Finding)
unfolding check_statements run_multi_rules
analyze_parsed r stmts sql = do
  single ← check_statements r.rules sql 0 stmts
  multi ← run_multi_rules r.multi_rules (record { stmts = stmts; positions = single.1 })
  some (single.0 ++ multi)

-- `Registry.Analyze`: `parse` is the parser, with its error or the statements.
unfoldable pub analyze :
    {E : Type 0} → (Bytes → E ⊎ List Statement) → Registry → Bytes → E ⊎ Option (List Finding)
unfolding analyze_parsed
analyze parse r sql = elim (parse sql) [
  | inl e ↦ inl e
  | inr stmts ↦ inr (analyze_parsed r stmts sql)
]
