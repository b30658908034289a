-- ===== src/Risk/Rules.antt =====
-- internal/risk/rules.go: the rules about writes and drops.
use sql_ai_tools.Prelude.{
  Bool, true, false, ◌||◌, List, [], ◌∷◌, ◌++◌, some, Bytes, codes, if◌then◌else◌,
}
use sql_ai_tools.Position.{Position}
use sql_ai_tools.Risk.{critical, high, Finding, draft, Rule}
use sql_ai_tools.Risk.Tree.{
  AlterCmd, drop_column, other_cmd, Ast, delete, update, drop_table, drop_database, alter_table,
  truncate,
}

-- `strings.Join(names, ", ")`.
unfoldable pub join_names : List Bytes → Bytes
join_names [] = []
join_names (n ∷ []) = n
join_names (n ∷ m ∷ names) = n ++ (codes ", " ++ join_names (m ∷ names))

unfoldable pub check_delete : Position → Ast → List Finding
check_delete at (delete has_where has_limit) =
    if has_where || has_limit
    then []
    else draft (codes "DELETE without WHERE clause affects all rows") at
        (codes "Add a WHERE clause to limit affected rows")
      ∷ []
check_delete at _ = []

abbrev pub delete_no_where_rule : Rule
delete_no_where_rule = record {
  reason_code = codes "DELETE_NO_WHERE";
  severity = critical;
  category = codes "data_safety";
  check = some (λ input. check_delete input.position input.ast);
}

unfoldable pub check_update : Position → Ast → List Finding
check_update at (update has_where has_limit) =
    if has_where || has_limit
    then []
    else draft (codes "UPDATE without WHERE clause affects all rows") at
        (codes "Add a WHERE clause to limit affected rows")
      ∷ []
check_update at _ = []

abbrev pub update_no_where_rule : Rule
update_no_where_rule = record {
  reason_code = codes "UPDATE_NO_WHERE";
  severity = critical;
  category = codes "data_safety";
  check = some (λ input. check_update input.position input.ast);
}

unfoldable pub check_drop_table : Position → Ast → List Finding
unfolding join_names
check_drop_table at (drop_table names) =
    draft
      (codes "DROP TABLE "
        ++ join_names names
        ++ codes " permanently removes the table and all its data")
      at (codes "Verify the table name and consider backing up data first")
    ∷ []
check_drop_table at _ = []

abbrev pub drop_table_rule : Rule
drop_table_rule = record {
  reason_code = codes "DROP_TABLE";
  severity = critical;
  category = codes "data_safety";
  check = some (λ input. check_drop_table input.position input.ast);
}

unfoldable pub check_drop_database : Position → Ast → List Finding
check_drop_database at (drop_database name) =
    draft
      (codes "DROP DATABASE "
        ++ name
        ++ codes " permanently removes the database and all its objects")
      at (codes "Verify the database name and consider backing up data first")
    ∷ []
check_drop_database at _ = []

abbrev pub drop_database_rule : Rule
drop_database_rule = record {
  reason_code = codes "DROP_DATABASE";
  severity = critical;
  category = codes "data_safety";
  check = some (λ input. check_drop_database input.position input.ast);
}

-- The loop over the commands of an ALTER TABLE.
unfoldable pub dropped_columns : Bytes → Position → List AlterCmd → List Finding
dropped_columns table at [] = []
dropped_columns table at (other_cmd ∷ cmds) = dropped_columns table at cmds
dropped_columns table at (drop_column column ∷ cmds) =
    draft
      (codes "ALTER TABLE "
        ++ table
        ++ codes " DROP COLUMN "
        ++ column
        ++ codes " permanently removes the column and its data")
      at (codes "Confirm no application reads or writes this column before dropping")
    ∷ dropped_columns table at cmds

unfoldable pub check_drop_column : Position → Ast → List Finding
unfolding dropped_columns
check_drop_column at (alter_table table cmds) = dropped_columns table at cmds
check_drop_column at _ = []

abbrev pub alter_table_drop_column_rule : Rule
alter_table_drop_column_rule = record {
  reason_code = codes "ALTER_TABLE_DROP_COLUMN";
  severity = high;
  category = codes "schema_safety";
  check = some (λ input. check_drop_column input.position input.ast);
}

-- The bytes of an em dash.
abbrev em_dash : Bytes
em_dash = 226 ∷ 128 ∷ 148 ∷ []

unfoldable pub truncate_message : Bytes → Bool → Bytes
truncate_message names false =
    codes "TRUNCATE TABLE " ++ names ++ codes " permanently removes every row in the table"
truncate_message names true =
    codes "TRUNCATE TABLE "
    ++ names
    ++ codes " CASCADE permanently removes every row in the table and all rows in tables "
    ++ codes "referencing it via foreign keys"

unfoldable pub truncate_hint : Bool → Bytes
truncate_hint false =
    codes
      "Verify the table name; use DELETE with a WHERE clause if you only need to remove some rows"
truncate_hint true =
    codes "CASCADE here also wipes dependent tables "
    ++ em_dash
    ++ codes " confirm the full set of affected tables before running"

unfoldable pub check_truncate : Position → Ast → List Finding
unfolding join_names truncate_message truncate_hint
check_truncate at (truncate tables cascade) =
    draft (truncate_message (join_names tables) cascade) at (truncate_hint cascade) ∷ []
check_truncate at _ = []

abbrev pub truncate_table_rule : Rule
truncate_table_rule = record {
  reason_code = codes "TRUNCATE_TABLE";
  severity = critical;
  category = codes "data_safety";
  check = some (λ input. check_truncate input.position input.ast);
}
