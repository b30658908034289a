-- ===== src/Version/Features.antt =====
-- internal/version/registry.go: the tags and the seeded registry.
use sql_ai_tools.Prelude.{List, [], ◌∷◌, Bytes, codes}
use sql_ai_tools.Version.Registry.{Feature, Built, new_registry}

abbrev pub feature_plpgsql_function_body : Bytes
feature_plpgsql_function_body = codes "plpgsql_function_body"

abbrev pub feature_trigram_index : Bytes
feature_trigram_index = codes "trigram_index"

abbrev pub feature_regional_by_row : Bytes
feature_regional_by_row = codes "regional_by_row"

abbrev pub feature_alter_changefeed : Bytes
feature_alter_changefeed = codes "alter_changefeed"

abbrev pub feature_triggers : Bytes
feature_triggers = codes "triggers"

abbrev pub feature_show_logical_replication_jobs : Bytes
feature_show_logical_replication_jobs = codes "show_logical_replication_jobs"

abbrev pub feature_ldr_skip_schema_check : Bytes
feature_ldr_skip_schema_check = codes "ldr_skip_schema_check"

abbrev pub feature_vector_index : Bytes
feature_vector_index = codes "vector_index"

abbrev pub feature_row_level_security : Bytes
feature_row_level_security = codes "row_level_security"

abbrev pub feature_check_external_connection : Bytes
feature_check_external_connection = codes "check_external_connection"

abbrev pub feature_ldr_bidirectional : Bytes
feature_ldr_bidirectional = codes "ldr_bidirectional"

abbrev pub feature_do_block : Bytes
feature_do_block = codes "do_block"

abbrev pub feature_returns_table : Bytes
feature_returns_table = codes "returns_table"

abbrev pub feature_xa_transactions : Bytes
feature_xa_transactions = codes "xa_transactions"

abbrev pub feature_create_policy_if_not_exists : Bytes
feature_create_policy_if_not_exists = codes "create_policy_if_not_exists"

abbrev pub feature_refresh_materialized_view_as_of : Bytes
feature_refresh_materialized_view_as_of = codes "refresh_materialized_view_as_of_system_time"

abbrev pub feature_alter_virtual_cluster_replication_src : Bytes
feature_alter_virtual_cluster_replication_src = codes "alter_virtual_cluster_replication_source"

abbrev pub feature_show_create_all_triggers : Bytes
feature_show_create_all_triggers = codes "show_create_all_triggers"

abbrev pub feature_show_create_all_routines : Bytes
feature_show_create_all_routines = codes "show_create_all_routines"

abbrev pub feature_alter_table_logged_unlogged : Bytes
feature_alter_table_logged_unlogged = codes "alter_table_logged_unlogged"

abbrev pub feature_grant_revoke_routines : Bytes
feature_grant_revoke_routines = codes "grant_revoke_routines"

abbrev pub feature_inspect_command : Bytes
feature_inspect_command = codes "inspect_command"

abbrev pub feature_show_inspect_errors : Bytes
feature_show_inspect_errors = codes "show_inspect_errors"

abbrev pub feature_ltree_type : Bytes
feature_ltree_type = codes "ltree_type"

abbrev pub feature_changefeed_database_level : Bytes
feature_changefeed_database_level = codes "changefeed_database_level"

abbrev pub feature_alter_external_connection : Bytes
feature_alter_external_connection = codes "alter_external_connection"

abbrev pub feature_show_jobs_resolved_timestamp : Bytes
feature_show_jobs_resolved_timestamp = codes "show_jobs_resolved_timestamp"

abbrev pub feature_backup_strict_storage_locality : Bytes
feature_backup_strict_storage_locality = codes "backup_strict_storage_locality"

abbrev pub feature_execute_schedule : Bytes
feature_execute_schedule = codes "execute_schedule"

abbrev pub feature_composite_type_array_fields : Bytes
feature_composite_type_array_fields = codes "composite_type_array_fields"

abbrev pub feature_commit_and_chain : Bytes
feature_commit_and_chain = codes "commit_and_chain"

abbrev pub feature_alter_table_enable_disable_trigger : Bytes
feature_alter_table_enable_disable_trigger = codes "alter_table_enable_disable_trigger"

abbrev pub feature_alter_index_storage_params : Bytes
feature_alter_index_storage_params = codes "alter_index_storage_params"

abbrev pub feature_show_statement_hints : Bytes
feature_show_statement_hints = codes "show_statement_hints"

abbrev pub feature_alter_table_push_statistics : Bytes
feature_alter_table_push_statistics = codes "alter_table_push_statistics"

-- `Feature{Tag: tag, Name: name, Introduced: introduced}`.
introduced_in : Bytes → Bytes → Bytes → Feature
introduced_in introduced tag name = record {
  tag = tag;
  name = name;
  introduced = introduced;
  removed = [];
  doc_url = [];
}

-- The entries of `DefaultRegistry`.
unfoldable pub default_features : List Feature
unfolding introduced_in
default_features =
    introduced_in (codes "24.1") feature_plpgsql_function_body (codes "PL/pgSQL function bodies")
    ∷ introduced_in (codes "23.1") feature_trigram_index (codes "trigram indexes")
    ∷ introduced_in (codes "21.1") feature_regional_by_row (codes "REGIONAL BY ROW tables")
    ∷ introduced_in (codes "22.1") feature_alter_changefeed (codes "ALTER CHANGEFEED")
    ∷ introduced_in (codes "24.3") feature_triggers (codes "triggers (CREATE/ALTER/DROP TRIGGER)")
    ∷ introduced_in (codes "24.3") feature_show_logical_replication_jobs
        (codes "SHOW LOGICAL REPLICATION JOBS")
    ∷ introduced_in (codes "24.3") feature_ldr_skip_schema_check
        (codes "LDR SKIP SCHEMA CHECK option")
    ∷ introduced_in (codes "25.1") feature_vector_index (codes "vector indexes (CSPANN)")
    ∷ introduced_in (codes "25.1") feature_row_level_security
        (codes "row-level security (CREATE/ALTER/DROP POLICY)")
    ∷ introduced_in (codes "25.1") feature_check_external_connection
        (codes "CHECK EXTERNAL CONNECTION")
    ∷ introduced_in (codes "25.1") feature_ldr_bidirectional (codes "LDR BIDIRECTIONAL option")
    ∷ introduced_in (codes "25.1") feature_do_block (codes "DO (anonymous PL/pgSQL block)")
    ∷ introduced_in (codes "25.1") feature_returns_table
        (codes "RETURNS TABLE for user-defined functions")
    ∷ introduced_in (codes "25.1") feature_xa_transactions
        (codes "XA two-phase commit (PREPARE/COMMIT/ROLLBACK PREPARED)")
    ∷ introduced_in (codes "25.2") feature_create_policy_if_not_exists
        (codes "CREATE POLICY IF NOT EXISTS")
    ∷ introduced_in (codes "25.2") feature_refresh_materialized_view_as_of
        (codes "REFRESH MATERIALIZED VIEW ... AS OF SYSTEM TIME")
    ∷ introduced_in (codes "25.2") feature_alter_virtual_cluster_replication_src
        (codes "ALTER VIRTUAL CLUSTER ... SET REPLICATION SOURCE")
    ∷ introduced_in (codes "25.3") feature_show_create_all_triggers
        (codes "SHOW CREATE ALL TRIGGERS")
    ∷ introduced_in (codes "25.3") feature_show_create_all_routines
        (codes "SHOW CREATE ALL ROUTINES")
    ∷ introduced_in (codes "25.3") feature_alter_table_logged_unlogged
        (codes "ALTER TABLE ... SET LOGGED/UNLOGGED")
    ∷ introduced_in (codes "25.3") feature_grant_revoke_routines
        (codes "GRANT/REVOKE ON ALL ROUTINES IN SCHEMA")
    ∷ introduced_in (codes "25.4") feature_inspect_command
        (codes "INSPECT (table/database consistency check)")
    ∷ introduced_in (codes "25.4") feature_show_inspect_errors (codes "SHOW INSPECT ERRORS")
    ∷ introduced_in (codes "25.4") feature_ltree_type (codes "LTREE type")
    ∷ introduced_in (codes "25.4") feature_changefeed_database_level
        (codes "CREATE DATABASE CHANGEFEED")
    ∷ introduced_in (codes "25.4") feature_alter_external_connection
        (codes "ALTER EXTERNAL CONNECTION")
    ∷ introduced_in (codes "26.1") feature_show_jobs_resolved_timestamp
        (codes "SHOW JOBS ... WITH RESOLVED TIMESTAMP")
    ∷ introduced_in (codes "26.1") feature_backup_strict_storage_locality
        (codes "BACKUP ... WITH STRICT STORAGE LOCALITY")
    ∷ introduced_in (codes "26.1") feature_execute_schedule (codes "EXECUTE SCHEDULE")
    ∷ introduced_in (codes "26.1") feature_composite_type_array_fields
        (codes "array types in composite type definitions")
    ∷ introduced_in (codes "26.2") feature_commit_and_chain
        (codes "COMMIT/ROLLBACK ... AND [NO] CHAIN")
    ∷ introduced_in (codes "26.2") feature_alter_table_enable_disable_trigger
        (codes "ALTER TABLE ... ENABLE/DISABLE TRIGGER")
    ∷ introduced_in (codes "26.2") feature_alter_index_storage_params
        (codes "ALTER INDEX ... SET/RESET storage parameters")
    ∷ introduced_in (codes "26.2") feature_show_statement_hints (codes "SHOW STATEMENT HINTS")
    ∷ introduced_in (codes "26.2") feature_alter_table_push_statistics
        (codes "ALTER TABLE ... PUSH STATISTICS")
    ∷ []

-- `DefaultRegistry`.
unfoldable pub default_registry : Built
unfolding new_registry
default_registry = new_registry default_features
