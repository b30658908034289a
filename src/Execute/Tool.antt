-- ===== src/Execute/Tool.antt =====
-- internal/mcp/tools/execute.go: the handler of the tool execute_sql, from the request to the calls
-- that it makes and the envelope that it returns. The parser and its printer, net/url and the driver
-- are arguments. The warnings on versions are left out: they change no call.
use sql_ai_tools.Prelude.{
  ℕ, suc, ◌-◌, Bool, true, false, List, [], ◌∷◌, ◌++◌, length, Option, none, some, Bytes,
  if◌then◌else◌,
}
use sql_ai_tools.Prelude.Int.{ℤ, pos}
use sql_ai_tools.Safety.Mode.{Mode, read_only}
use sql_ai_tools.Safety.Statement.{Statement}
use sql_ai_tools.Safety.Allowlist.{ParseResult, Violation, op_execute, check_parsed}
use sql_ai_tools.Safety.Limit.{maybe_inject_limit_parsed}
use sql_ai_tools.Strip.{StripResult, strip_shell_prompts_with_map}
use sql_ai_tools.Tls.{Urls, TlsParams, TlsError, Result, merged, rejected, merge_tls_params}
use sql_ai_tools.Execute.{
  Call, close_conn, Driver, Manager, ExecuteError, ExecuteResult, Outcome, did, execute,
}
use sql_ai_tools.Execute.Arguments.{
  ArgumentError, Got, bad, got, with_statement_timeout, milliseconds, Arguments, resolve_tls_params,
  Ready, resolve_arguments,
}

-- What the handler calls outside the repository; a driver belongs to a connection string.
pub record Outside (E R U V : Type 0) : Type 0 where
  pub parse : Bytes → ParseResult E
  pub as_string : Statement → Bytes
  pub urls : Urls U V
  pub driver : Bytes → Driver R

-- The entries of `env.Errors`; `position_omitted` of a cluster error.
pub data Diagnostic (E : Type 0) : Type 0 where
  input_preprocessed : ℕ → Diagnostic E
  parse_error : E → Diagnostic E
  safety_violation : Violation → Diagnostic E
  tls_param_error : TlsError → Diagnostic E
  cluster_error : (error : ExecuteError) → (position_omitted : Bool) → Diagnostic E

-- A tool error, an envelope with errors, or the envelope of a result.
pub data Response (E R : Type 0) : Type 0 where
  bad_argument : ArgumentError → Response E R
  reported : List (Diagnostic E) → Response E R
  executed : List (Diagnostic E) → ExecuteResult R → Response E R

-- `mgr.Close`.
unfoldable pub close_manager : Manager → Manager
unfolding did
close_manager m = if m.connected then record (did close_conn m) { connected = false } else m

-- `preprocessSQL`.
unfoldable pub preprocessed : {E : Type 0} → Bytes → StripResult → List (Diagnostic E)
preprocessed sql strip =
    if strip.removed then input_preprocessed (length sql - length strip.stripped) ∷ [] else []

-- The text that was injected, where there is one.
unfoldable pub kept : Bytes → Bytes × Bool → Bytes × Bool
kept sql (text, true) = (text, true)
kept sql (text, false) = (sql, false)

-- `rewritten` and `injected`.
unfoldable pub rewrite : (Statement → Bytes) → Mode → ℤ → List Statement → Bytes → Bytes × Bool
unfolding kept
rewrite as_string read_only (pos (suc n)) stmts sql =
    kept sql (maybe_inject_limit_parsed as_string stmts (pos (suc n)))
rewrite as_string _ _ stmts sql = (sql, false)

unfoldable pub with_limit : {R : Type 0} → Bool → ℤ → ExecuteResult R → ExecuteResult R
with_limit true max_rows r = record r { limit_injected = some max_rows }
with_limit false max_rows r = r

-- The response, with the calls that were made.
abbrev pub Handled : Type 0 → Type 0 → Type 0
Handled E R = Response E R × List Call

unfoldable pub answered :
    {E R : Type 0} → List (Diagnostic E) → Bool → ℤ → Manager × Outcome R → Handled E R
unfolding close_manager with_limit
answered notes injected max_rows (m, Outcome.failed e) =
    (reported (notes ++ cluster_error e injected ∷ []), (close_manager m).calls)
answered notes injected max_rows (m, Outcome.returned r) =
    (executed notes (with_limit injected max_rows r), (close_manager m).calls)

module _ {E R U V : Type 0} where
  -- From the merged connection string on.
  unfoldable pub run_on :
      Outside E R U V → Ready → List (Diagnostic E) → Bytes × Bool → Bytes → Handled E R
  unfolding answered execute with_statement_timeout
  run_on o a notes (sql, injected) dsn = answered notes injected a.max_rows (
      execute (o.driver dsn) a.mode sql a.max_rows (record {
        connected = false;
        timeout = milliseconds (with_statement_timeout a.timeout);
        calls = [];
      }))

  unfoldable pub on_merge :
      Outside E R U V → Ready → List (Diagnostic E) → Bytes × Bool → Result Bytes → Handled E R
  unfolding run_on
  on_merge o a notes text (rejected e) = (reported (notes ++ tls_param_error e ∷ []), [])
  on_merge o a notes text (merged dsn) = run_on o a notes text dsn

  unfoldable pub on_tls :
      Outside E R U V → Ready → List (Diagnostic E) → Bytes × Bool → Got TlsParams → Handled E R
  unfolding on_merge
  on_tls o a notes text (bad e) = (bad_argument e, [])
  on_tls o a notes text (got p) = on_merge o a notes text (merge_tls_params o.urls a.dsn p)

  -- Behind the gate.
  unfoldable pub on_verdict :
      Outside E R U V
      → Arguments
      → Ready
      → List (Diagnostic E)
      → Bytes
      → List Statement
      → Option Violation
      → Handled E R
  unfolding on_tls rewrite
  on_verdict o raw a notes sql stmts (some v) = (reported (notes ++ safety_violation v ∷ []), [])
  on_verdict o raw a notes sql stmts none =
      on_tls o a notes (rewrite o.as_string a.mode a.max_rows stmts sql) (resolve_tls_params raw)

  unfoldable pub on_parse :
      Outside E R U V
      → Arguments
      → Ready
      → List (Diagnostic E)
      → Bytes
      → ParseResult E
      → Handled E R
  unfolding on_verdict
  on_parse o raw a notes sql (ParseResult.failed e) = (reported (notes ++ parse_error e ∷ []), [])
  on_parse o raw a notes sql (ParseResult.parsed stmts) =
      on_verdict o raw a notes sql stmts (check_parsed a.mode op_execute stmts)

  unfoldable pub on_arguments : Outside E R U V → Arguments → Got Ready → Handled E R
  unfolding on_parse preprocessed
  on_arguments o raw (bad e) = (bad_argument e, [])
  on_arguments o raw (got a) =
      let strip = strip_shell_prompts_with_map a.sql in
      on_parse o raw a (preprocessed a.sql strip) strip.stripped (o.parse strip.stripped)

  -- The handler of `ExecuteSQLHandler`.
  unfoldable pub execute_sql : Outside E R U V → Bytes → Arguments → Handled E R
  unfolding on_arguments resolve_arguments
  execute_sql o default raw = on_arguments o raw (resolve_arguments default raw)
