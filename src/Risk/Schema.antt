-- ===== src/Risk/Schema.antt =====
-- internal/risk/rules.go: the rules about primary keys, offsets, prepared transactions and savepoints.
use sql_ai_tools.Prelude.{
  ℕ, suc, ◌*◌, ◌^◌, Bool, true, false, not, ◌||◌, List, [], ◌∷◌, ◌++◌, Option, none, some, Bytes,
  codes, ltb, if◌then◌else◌,
}
use sql_ai_tools.Prelude.Int.{pos, negsuc}
use sql_ai_tools.Text.{bytes_eq}
use sql_ai_tools.Suggest.{equal_fold}
use sql_ai_tools.Position.{Position}
use sql_ai_tools.Risk.{high, medium, Finding, draft, Rule}
use sql_ai_tools.Risk.Tree.{
  Float64, finite, infinite, Offset, num_val, TableDef, column_def, unique_constraint, other_def,
  Ast, select, create_table, prepare_transaction, commit_prepared, rollback_prepared, savepoint,
  release_savepoint, rollback_to_savepoint,
}

-- The set `pkCols`, as a list.
unfoldable pub pk_cols : List TableDef → List Bytes
pk_cols [] = []
pk_cols (column_def name true is_serial ∷ defs) = name ∷ pk_cols defs
pk_cols (column_def name false is_serial ∷ defs) = pk_cols defs
pk_cols (unique_constraint true columns ∷ defs) = columns ++ pk_cols defs
pk_cols (unique_constraint false columns ∷ defs) = pk_cols defs
pk_cols (other_def ∷ defs) = pk_cols defs

-- `pkCols[name]`.
unfoldable pub has_col : List Bytes → Bytes → Bool
unfolding bytes_eq
has_col [] name = false
has_col (c ∷ cols) name = bytes_eq c name || has_col cols name

abbrev pub serial_finding : Bytes → Position → Bytes → Finding
serial_finding table at name =
    draft
      (codes "CREATE TABLE "
        ++ table
        ++ codes ": primary key column "
        ++ name
        ++ codes " uses SERIAL, which creates a write hotspot in CockroachDB")
      at
      (codes
        "Use UUID PRIMARY KEY DEFAULT gen_random_uuid() or INT8 GENERATED BY DEFAULT AS IDENTITY instead")

-- The second loop of the rule.
unfoldable pub serial_columns : Bytes → Position → List Bytes → List TableDef → List Finding
unfolding has_col
serial_columns table at cols [] = []
serial_columns table at cols (column_def name primary is_serial ∷ defs) =
    let rest = serial_columns table at cols defs in
    if not is_serial || not (has_col cols name) then rest else serial_finding table at name ∷ rest
serial_columns table at cols (unique_constraint primary columns ∷ defs) =
    serial_columns table at cols defs
serial_columns table at cols (other_def ∷ defs) = serial_columns table at cols defs

-- `len(pkCols) == 0`.
unfoldable pub serial_findings : Bytes → Position → List TableDef → List Bytes → List Finding
unfolding serial_columns
serial_findings table at defs [] = []
serial_findings table at defs (c ∷ cols) = serial_columns table at (c ∷ cols) defs

unfoldable pub check_serial : Position → Ast → List Finding
unfolding serial_findings pk_cols
check_serial at (create_table ct) = serial_findings ct.table at ct.defs (pk_cols ct.defs)
check_serial at _ = []

abbrev pub serial_primary_key_rule : Rule
serial_primary_key_rule = record {
  reason_code = codes "SERIAL_PRIMARY_KEY";
  severity = high;
  category = codes "performance";
  check = some (λ input. check_serial input.position input.ast);
}

-- The loop that returns at the first definition that declares a primary key.
unfoldable pub declares_key : List TableDef → Bool
declares_key [] = false
declares_key (column_def name primary is_serial ∷ defs) = primary || declares_key defs
declares_key (unique_constraint primary columns ∷ defs) = primary || declares_key defs
declares_key (other_def ∷ defs) = declares_key defs

unfoldable pub check_missing_key : Position → Ast → List Finding
unfolding declares_key
check_missing_key at (create_table ct) =
    if ct.has_as_source || declares_key ct.defs
    then []
    else draft
        (codes "CREATE TABLE "
          ++ ct.table
          ++ codes
              " has no PRIMARY KEY; CockroachDB will add a hidden sequential rowid column that "
          ++ codes "becomes a write hotspot")
        at (codes "Declare an explicit PRIMARY KEY, preferably UUID DEFAULT gen_random_uuid()")
      ∷ []
check_missing_key at _ = []

abbrev pub missing_primary_key_rule : Rule
missing_primary_key_rule = record {
  reason_code = codes "MISSING_PRIMARY_KEY";
  severity = medium;
  category = codes "schema_safety";
  check = some (λ input. check_missing_key input.position input.ast);
}

abbrev pub large_offset_threshold : ℕ
large_offset_threshold = 1000

-- `f < float64(n)`.
unfoldable pub float_less : Float64 → ℕ → Bool
float_less (infinite negative) n = negative
float_less (finite true m e) n = ltb 0 n || ltb 0 m
float_less (finite false m (pos k)) n = ltb (m * 2 ^ k) n
float_less (finite false m (negsuc k)) n = ltb m (n * 2 ^ suc k)

unfoldable pub check_literal : Position → Option Offset → List Finding
unfolding float_less
check_literal at (some (num_val text (some f))) =
    if float_less f large_offset_threshold
    then []
    else draft
        (codes "OFFSET "
          ++ text
          ++ codes
              " scans and discards every preceding row, which degrades to a full-table scan as the "
          ++ codes "offset grows")
        at
        (codes
            "Use keyset pagination (WHERE (sort_col, id) < ($last_sort, $last_id) ORDER BY ... LIMIT N) "
          ++ codes "instead")
      ∷ []
check_literal at _ = []

unfoldable pub check_limit : Position → Option (Option Offset) → List Finding
unfolding check_literal
check_limit at none = []
check_limit at (some offset) = check_literal at offset

unfoldable pub check_offset : Position → Ast → List Finding
unfolding check_limit
check_offset at (select sel) = check_limit at sel.limit
check_offset at _ = []

abbrev pub large_offset_rule : Rule
large_offset_rule = record {
  reason_code = codes "LARGE_OFFSET";
  severity = medium;
  category = codes "performance";
  check = some (λ input. check_offset input.position input.ast);
}

-- `verb`, or none where the rule returns nil.
unfoldable pub xa_verb : Ast → Option Bytes
xa_verb prepare_transaction = some (codes "PREPARE TRANSACTION")
xa_verb commit_prepared = some (codes "COMMIT PREPARED")
xa_verb rollback_prepared = some (codes "ROLLBACK PREPARED")
xa_verb _ = none

unfoldable pub xa_findings : Position → Option Bytes → List Finding
xa_findings at none = []
xa_findings at (some verb) =
    draft
      (verb
        ++ codes
            " is a two-phase-commit (XA) statement; the prepared transaction state outlives the "
        ++ codes
            "session and holds row locks until an external coordinator commits or rolls it back")
      at
      (codes
          "For cross-system consistency use the outbox pattern: write business data and an outbox row "
        ++ codes "in one CockroachDB transaction, then deliver via a changefeed")
    ∷ []

unfoldable pub check_xa : Position → Ast → List Finding
unfolding xa_verb xa_findings
check_xa at ast = xa_findings at (xa_verb ast)

abbrev pub xa_prepared_txn_rule : Rule
xa_prepared_txn_rule = record {
  reason_code = codes "XA_PREPARED_TXN";
  severity = high;
  category = codes "transactional_safety";
  check = some (λ input. check_xa input.position input.ast);
}

abbrev pub restart_savepoint_name : Bytes
restart_savepoint_name = codes "cockroach_restart"

-- `savepointName`.
unfoldable pub savepoint_name : Ast → Option Bytes
savepoint_name (savepoint name) = some name
savepoint_name (release_savepoint name) = some name
savepoint_name (rollback_to_savepoint name) = some name
savepoint_name _ = none

unfoldable pub savepoint_verb : Ast → Bytes
savepoint_verb (savepoint name) = codes "SAVEPOINT cockroach_restart"
savepoint_verb (release_savepoint name) = codes "RELEASE SAVEPOINT cockroach_restart"
savepoint_verb (rollback_to_savepoint name) = codes "ROLLBACK TO SAVEPOINT cockroach_restart"
savepoint_verb _ = []

unfoldable pub savepoint_findings : Position → Bytes → Option Bytes → List Finding
unfolding equal_fold
savepoint_findings at verb none = []
savepoint_findings at verb (some name) =
    if not (equal_fold name restart_savepoint_name)
    then []
    else draft
        (verb
          ++ codes
              " is the legacy client-side retry pattern; modern CockroachDB recommends retrying "
          ++ codes "the whole BEGIN..COMMIT in the application instead")
        at
        (codes
            "Drop the savepoint and retry the entire BEGIN..COMMIT block with exponential backoff on "
          ++ codes "SQLSTATE 40001")
      ∷ []

unfoldable pub check_savepoint : Position → Ast → List Finding
unfolding savepoint_name savepoint_verb savepoint_findings
check_savepoint at ast = savepoint_findings at (savepoint_verb ast) (savepoint_name ast)

abbrev pub savepoint_cockroach_restart_rule : Rule
savepoint_cockroach_restart_rule = record {
  reason_code = codes "SAVEPOINT_COCKROACH_RESTART";
  severity = medium;
  category = codes "transactional_safety";
  check = some (λ input. check_savepoint input.position input.ast);
}
