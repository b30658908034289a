-- ===== src/Tests/Risk.antt =====
-- internal/risk on a small script.
use sql_ai_tools.Risk.Schema.{
  check_serial, check_missing_key, check_offset, check_xa, check_savepoint,
}
use sql_ai_tools.Risk.Rules.{
  check_delete, check_update, check_drop_table, check_drop_database, check_drop_column,
  check_truncate,
}
use sql_ai_tools.Risk.Selects.{check_locking, check_star}
use sql_ai_tools.Text.{index}
use sql_ai_tools.Prelude.{
  ℕ, ◌≡◌, ◌↔◌, refl, inr, true, false, List, [], ◌∷◌, Option, none, some, Bytes, codes,
}
use sql_ai_tools.Position.{Position, count_newlines, column_of, last_index}
use sql_ai_tools.Risk.{
  critical, Finding, CheckInput, Rule, MultiCheckInput, MultiRule, Registry, run_rules,
  check_statements, new_registry, analyze_parsed, add_rule, add_multi_rule,
}
use sql_ai_tools.Risk.Tree.{
  Ast, delete, begin_transaction, commit_transaction, other_statement, StatementType, ddl, dml,
  other_type, Statement,
}
use sql_ai_tools.Risk.Txn.{brackets, explicit_txn_blocks, check_multiple_ddl, check_mixed}
use sql_ai_tools.Risk.Defaults.{default_rules, default_multi_rules}
use sql_ai_tools.Risk.Blocks.{spans, explicit_txn_blocks-spans}
use sql_ai_tools.Risk.Mixed.{places, somes, all_of, extra_changes, mixed_start, txn_findings}
use sql_ai_tools.Risk.Registered.{Distinct, push_codes}
use sql_ai_tools.Risk.Stamped.{FromRule, Gives, analyze_parsed-FromRule}
use sql_ai_tools.Risk.Located.{Chain, check_statements-Chain}
use sql_ai_tools.Risk.Critical.{Dangerous, any_critical, critical_iff}

abbrev script : Bytes
script = codes "BEGIN;\nDROP INDEX a;\nDELETE FROM t;\nDROP INDEX b;\nCOMMIT"

abbrev statement : Ast → Bytes → StatementType → Statement
statement ast sql type = record { ast = ast; sql = sql; statement_type = type; tag = [] }

abbrev parsed : List Statement
parsed =
    statement begin_transaction (codes "BEGIN") other_type
    ∷ statement other_statement (codes "DROP INDEX a") ddl
    ∷ statement (delete false false) (codes "DELETE FROM t") dml
    ∷ statement other_statement (codes "DROP INDEX b") ddl
    ∷ statement commit_transaction (codes "COMMIT") other_type
    ∷ []

abbrev defaults : Registry
defaults = record { rules = default_rules; multi_rules = default_multi_rules }

-- The default rules make a registry.
defaults_made : new_registry default_rules default_multi_rules ≡ inr defaults
unfolding new_registry add_rule add_multi_rule
defaults_made = refl

-- The reason codes, severities and offsets of findings.
abbrev summary : List Finding → List (Bytes × Option ℕ)
summary [] = []
summary (f ∷ fs) = (f.reason_code, offset f.position) ∷ summary fs
  where
    offset : Option Position → Option ℕ
    offset none = none
    offset (some p) = some p.byte_offset

abbrev summarised : Option (List Finding) → List (Bytes × Option ℕ)
summarised none = []
summarised (some fs) = summary fs

script_run :
    summarised (analyze_parsed defaults parsed script)
    ≡ (codes "DELETE_NO_WHERE", some 21)
      ∷ (codes "MULTIPLE_DDL_IN_TXN", some 36)
      ∷ (codes "DDL_AND_DML_IN_TXN", some 0)
      ∷ []
unfolding analyze_parsed check_delete check_update check_drop_table check_drop_database
    check_drop_column check_locking check_star check_truncate check_serial check_missing_key
    check_offset check_xa check_savepoint index check_multiple_ddl check_mixed count_newlines
    last_index column_of
script_run = refl

nested_run :
    explicit_txn_blocks (
      statement begin_transaction [] other_type
      ∷ statement begin_transaction [] other_type
      ∷ statement commit_transaction [] other_type
      ∷ [])
    ≡ record { first = 0; last = 3 } ∷ record { first = 1; last = 2 } ∷ []
unfolding explicit_txn_blocks
nested_run = refl

analyze_parsed-FromRule_example :
    Distinct (
      push_codes
        (λ (rule : MultiRule). rule.reason_code)
        default_multi_rules
        (push_codes (λ (rule : Rule). rule.reason_code) default_rules []))
    × Gives (FromRule defaults) (analyze_parsed defaults parsed script)
analyze_parsed-FromRule_example =
    analyze_parsed-FromRule default_rules default_multi_rules defaults defaults_made parsed script

explicit_txn_blocks-spans_example : explicit_txn_blocks parsed ≡ spans 5 0 (brackets parsed)
explicit_txn_blocks-spans_example = explicit_txn_blocks-spans parsed

abbrev positions : List Position
positions =
    record { line = 1; column = 1; byte_offset = 0 }
    ∷ record { line = 2; column = 1; byte_offset = 7 }
    ∷ record { line = 3; column = 1; byte_offset = 21 }
    ∷ record { line = 4; column = 1; byte_offset = 36 }
    ∷ record { line = 5; column = 1; byte_offset = 50 }
    ∷ []

abbrev input : MultiCheckInput
input = record { stmts = parsed; positions = positions }

txn_findings_example :
    let blocks = spans 5 0 (brackets parsed) in
    (places (check_multiple_ddl input) ≡ somes (all_of (extra_changes input) blocks))
    × (places (check_mixed input) ≡ somes (all_of (mixed_start input) blocks))
txn_findings_example = txn_findings input

check_statements-Chain_example : Chain script 0 parsed positions
unfolding check_statements index count_newlines column_of last_index
check_statements-Chain_example = check_statements-Chain [] script parsed [] positions refl

abbrev emptied : CheckInput
emptied = record {
  ast = delete false false;
  stmt_sql = [];
  position = record { line = 1; column = 1; byte_offset = 0 };
}

abbrev found : List Finding
found =
    record {
      reason_code = codes "DELETE_NO_WHERE";
      severity = critical;
      message = codes "DELETE without WHERE clause affects all rows";
      position = some emptied.position;
      fix_hint = codes "Add a WHERE clause to limit affected rows";
    }
    ∷ []

critical_iff_example : (any_critical found ≡ true) ↔ Dangerous (delete false false)
unfolding run_rules check_delete check_update check_drop_table check_drop_database check_drop_column
    check_locking check_star check_truncate check_serial check_missing_key check_offset check_xa
    check_savepoint
critical_iff_example = critical_iff emptied found refl
