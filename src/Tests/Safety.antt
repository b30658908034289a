-- ===== src/Tests/Safety.antt =====
-- internal/safety on concrete statements.
use sql_ai_tools.Prelude.{
  ◌≡◌, ◌≢◌, ◌↔◌, ◌⊎◌, refl, true, false, [], ◌∷◌, none, some, String, All, Bytes, codes,
}
use sql_ai_tools.Prelude.Int.{pos}
use sql_ai_tools.Safety.Mode.{read_only, safe_write, full_access}
use sql_ai_tools.Safety.Statement.{ddl, dml, explain, select, other, Statement, is_explain}
use sql_ai_tools.Safety.Allowlist.{
  op_simulate, op_execute, Violation, kind_schema, classify, check_parsed, ParseResult, parsed,
}
use sql_ai_tools.Safety.Gate.{
  IsReadOnly, check_parsed-read_only_iff, check_parsed-simulate, check_parsed_mono,
}
use sql_ai_tools.Safety.Envelope.{escalation_target_for}
use sql_ai_tools.Safety.Envelope.Escalation.{escalation_exact}
use sql_ai_tools.Safety.Limit.{injected}
use sql_ai_tools.Safety.Limit.Injection.{IsCapped, injected_iff}

abbrev select_one : Statement
select_one = record {
  node = select none;
  tag = "SELECT";
  statement_type = dml;
  modifies_schema = false;
  writes_data = false;
}

abbrev create_table : Statement
create_table = record {
  node = other;
  tag = "CREATE TABLE";
  statement_type = ddl;
  modifies_schema = true;
  writes_data = false;
}

abbrev explain_one : Statement
explain_one = record {
  node = explain;
  tag = "EXPLAIN";
  statement_type = dml;
  modifies_schema = false;
  writes_data = false;
}

abbrev schema_violation : Violation
schema_violation = record {
  tag = "CREATE TABLE";
  reason = "statement modifies schema; read_only mode forbids it";
  mode = read_only;
  op = op_execute;
  kind = kind_schema;
}

select_passes : check_parsed read_only op_execute (select_one ∷ []) ≡ none
unfolding check_parsed classify
select_passes = refl

check_parsed-read_only_iff_example :
    (check_parsed read_only op_execute (select_one ∷ create_table ∷ []) ≡ none)
    ↔ ((select_one ∷ create_table ∷ [] ≢ []) × All IsReadOnly (select_one ∷ create_table ∷ []))
check_parsed-read_only_iff_example =
    check_parsed-read_only_iff op_execute (select_one ∷ create_table ∷ []) refl

check_parsed-simulate_example :
    ((check_parsed read_only op_simulate (create_table ∷ []) ≡ none) ↔ (
      (create_table ∷ [] ≢ [])
      × All
          (λ s. (is_explain s.node ≡ false) × ((s.statement_type ≡ ddl) ⊎ (s.statement_type ≡ dml)))
          (create_table ∷ [])))
    × (check_parsed safe_write op_simulate (create_table ∷ []) ≢ none)
    × (check_parsed full_access op_simulate (create_table ∷ []) ≢ none)
check_parsed-simulate_example = check_parsed-simulate (create_table ∷ [])

check_parsed_mono_example : check_parsed full_access op_execute (select_one ∷ []) ≡ none
unfolding check_parsed classify
check_parsed_mono_example =
    check_parsed_mono read_only full_access op_execute (select_one ∷ []) tt refl refl

escalation_exact_example :
    (classify full_access op_execute create_table ≡ none)
    × (full_access ≢ read_only)
    × (full_access ≡ full_access → classify safe_write op_execute create_table ≢ none)
unfolding classify escalation_target_for
escalation_exact_example =
    escalation_exact read_only full_access op_execute create_table schema_violation refl refl

abbrev capped_select : Statement
capped_select = record select_one {
  node = select (some (record { count = some 100; offset = none; limit_all = false }));
}

injected_iff_example :
    (injected (select_one ∷ []) (pos 100) ≡ some capped_select)
    ↔ IsCapped (select_one ∷ []) (pos 100) capped_select
injected_iff_example = injected_iff (select_one ∷ []) (pos 100) capped_select

-- A parser that reads every text as the one SELECT, and a printer that shows the tag.
abbrev one_select : Bytes → ParseResult String
one_select sql = parsed (select_one ∷ [])

abbrev tag_of : Statement → Bytes
tag_of s = codes s.tag
