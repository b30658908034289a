-- ===== src/Tests/Execute.antt =====
-- Runs of the tool execute_sql and of its parts.
use sql_ai_tools.Prelude.{
  ℕ, ◌≡◌, ◌⊎◌, refl, Bool, true, false, List, [], ◌∷◌, ◌++◌, map, length, take, none, some, Bytes,
  codes, ltb, if◌then◌else◌, arith,
}
use sql_ai_tools.Prelude.Int.{pos, negsuc}
use sql_ai_tools.Text.{bytes_eq, trim_space}
use sql_ai_tools.Mcp.{resolve_target_version}
use sql_ai_tools.Safety.Limit.{maybe_inject_limit_parsed}
use sql_ai_tools.Text.Laws.{bytes_eq_iff}
use sql_ai_tools.Safety.Mode.{read_only, safe_write}
use sql_ai_tools.Safety.Statement.{Statement, dml, select}
use sql_ai_tools.Safety.Allowlist.{ParseResult, check_parsed, classify}
use sql_ai_tools.Tls.{Urls, TlsParams, merge_tls_params}
use sql_ai_tools.Tls.Merged.{UrlLaws, Merged, merge_tls_params-Merged}
use sql_ai_tools.Execute.{
  access_read_only, access_default, dial, begin_tx, set_timeout, set_safe_updates, query,
  close_rows, commit, rollback, close_conn, Driver, Manager, scanned, scan, execute,
}
use sql_ai_tools.Execute.Scan.{scan-take}
use sql_ai_tools.Execute.Arguments.{
  Number, text, number, Arguments, resolve_tls_params, got, with_statement_timeout, milliseconds,
  scaled,
}
use sql_ai_tools.Execute.Timeout.{Sets, not_positive, given, timeout_set}
use sql_ai_tools.Execute.Tool.{Outside, execute_sql}
use sql_ai_tools.Execute.Admitted.{Lets, execute_sql-Lets}

-- The values of a query by their names.
abbrev Values : Type 0
Values = Bytes → Bytes

abbrev set_value : Values → Bytes → Bytes → Values
set_value q name val other = if bytes_eq name other then val else q other

-- Every address parses, with no values; it is shown as its sslmode.
abbrev urls : Urls Bytes Values
urls = record {
  parse = λ s. some s;
  query = λ u name. [];
  get = λ q name. q name;
  set = set_value;
  rebuild = λ u q. u ++ q (codes "sslmode");
}

urls-UrlLaws : UrlLaws urls
urls-UrlLaws = record {
  get-set = λ q name val. rw ((bytes_eq_iff name name).1 refl) refl;
  get-set-other = λ q name other val ne. other_name q name other val ne (bytes_eq name other) refl;
}
  where
    other_name :
        (q : Values) (name other val : Bytes)
        → (other ≡ name → ⊥)
        → (b : Bool) → bytes_eq name other ≡ b
        → (if b then val else q other) ≡ q other
    other_name q name other val ne true e =
        absurd (ne (ground (arith, (bytes_eq_iff name other).0 e)))
    other_name q name other val ne false e = refl

abbrev verify : TlsParams
verify = record { ssl_mode = codes "verify"; ssl_root_cert = []; ssl_cert = []; ssl_key = [] }

abbrev address : Bytes
address = codes "postgres://h/?sslmode="

merge_tls_params_example :
    Merged urls urls-UrlLaws address verify (merge_tls_params urls address verify)
merge_tls_params_example = merge_tls_params-Merged urls urls-UrlLaws address verify

abbrev three_rows : List ℕ
three_rows = 1 ∷ 2 ∷ 3 ∷ []

scan-take_example :
    (scan (pos 2) (map some three_rows) []
      ≡ scanned (take 2 three_rows) (ltb 2 (length three_rows)))
    × (scan (pos 0) (map some three_rows) [] ≡ scanned three_rows false)
    × (scan (negsuc 1) (map some three_rows) [] ≡ scanned three_rows false)
scan-take_example = scan-take 1 three_rows

-- A driver whose calls all succeed, with two rows for every query.
abbrev driver : Driver ℕ
driver = record {
  succeeds = λ calls c. true;
  answer = λ calls sql. record {
    fields = [];
    rows = some 7 ∷ some 8 ∷ [];
    tail_error = false;
    rows_affected = pos 2;
    tag = codes "SELECT 2";
  };
  type_for_oid = λ oid. none;
}

abbrev manager : Manager
manager = record { connected = false; timeout = 30000; calls = [] }

writes_run :
    (execute driver safe_write (codes "q") (pos 1) manager).0.calls
    ≡ dial
      ∷ begin_tx access_default
      ∷ set_timeout 30000
      ∷ set_safe_updates
      ∷ query (codes "q")
      ∷ close_rows
      ∷ commit
      ∷ rollback
      ∷ []
unfolding execute
writes_run = refl

abbrev millis : ℕ → Number
millis n = record { below_zero = false; above_zero = true; whole = pos n }

abbrev none_given : Number
none_given = record { below_zero = true; above_zero = false; whole = negsuc 4 }

timeout_set_example :
    Sets (some (number (millis 5000))) 5000 × Sets (some (number none_given)) 30000
timeout_set_example = (
  timeout_set (some (number (millis 5000))) 5000 (given (millis 5000) 4999 refl refl (omega arith)),
  timeout_set (some (number none_given)) 30000 (not_positive none_given refl),
)

-- The product with a million wraps around: a timeout of 584 years is set as none.
timeout_lost : milliseconds (with_statement_timeout (scaled (pos 18446744073710))) ≡ 0
unfolding with_statement_timeout
timeout_lost = refl

abbrev select_one : Statement
select_one = record {
  node = select none;
  tag = "SELECT";
  statement_type = dml;
  modifies_schema = false;
  writes_data = false;
}

-- Every text is the one SELECT, and it is printed as `capped`.
abbrev outside : Outside ℕ ℕ Bytes Values
outside = record {
  parse = λ sql. ParseResult.parsed (select_one ∷ []);
  as_string = λ s. codes "capped";
  urls = urls;
  driver = λ dsn. driver;
}

abbrev request : Arguments
request = record {
  sql = some (text (codes "select 1"));
  dsn = some (text address);
  target_version = none;
  statement_timeout = none;
  max_rows = none;
  ssl_mode = none;
  ssl_root_cert = none;
  ssl_cert = none;
  ssl_key = none;
  mode = got read_only;
}

tool_run :
    (execute_sql outside [] request).1
    ≡ dial
      ∷ begin_tx access_read_only
      ∷ set_timeout 30000
      ∷ query (codes "capped")
      ∷ close_rows
      ∷ commit
      ∷ rollback
      ∷ close_conn
      ∷ []
unfolding execute_sql check_parsed classify trim_space resolve_target_version resolve_tls_params
    merge_tls_params maybe_inject_limit_parsed
tool_run = refl

execute_sql_example :
    ((execute_sql outside [] request).1 ≡ [])
    ⊎ Lets outside request [] (execute_sql outside [] request).1
execute_sql_example = execute_sql-Lets outside request []
