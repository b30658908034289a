-- ===== src/Execute/Arguments.antt =====
-- internal/mcp/tools/tools.go: the arguments of the tool execute_sql. An argument is a JSON value of
-- the request, if it is there. The mode is given as `resolveSafetyMode` returns it.
use sql_ai_tools.Prelude.{
  ℕ, suc, ◌-◌, ◌*◌, ◌/◌, ◌%◌, ◌^◌, Bool, [], ◌∷◌, Option, none, some, Bytes, ltb, if◌then◌else◌,
}
use sql_ai_tools.Prelude.Int.{ℤ, pos, negsuc}
use sql_ai_tools.Text.{trim_space}
use sql_ai_tools.Safety.Mode.{Mode}
use sql_ai_tools.Tls.{TlsParams}
use sql_ai_tools.Mcp.{Argument, ToolError, Resolved, tool_error, resolved, resolve_target_version}

-- What the code reads of a `float64`: its sign, and `int(n)`.
pub record Number : Type 0 where
  pub below_zero : Bool
  pub above_zero : Bool
  pub whole : ℤ

pub data Value : Type 0 where
  text : Bytes → Value
  number : Number → Value
  null other_value : Value

pub data ArgumentError : Type 0 where
  is_required not_string is_empty_string not_number bad_mode : ArgumentError
  bad_target : ToolError → ArgumentError

-- An argument's value, or the tool error.
pub data Got (A : Type 0) : Type 0 where
  bad : ArgumentError → Got A
  got : A → Got A

unfoldable pub and_then : {A B : Type 0} → Got A → (A → Got B) → Got B
and_then (bad e) f = bad e
and_then (got a) f = f a

unfoldable pub not_empty : Bytes → Got Bytes
not_empty [] = bad is_empty_string
not_empty (c ∷ s) = got (c ∷ s)

-- `extractRequiredString`.
unfoldable pub extract_required_string : Option Value → Got Bytes
unfolding not_empty
extract_required_string none = bad is_required
extract_required_string (some (text s)) = not_empty (trim_space s)
extract_required_string (some _) = bad not_string

-- A duration in nanoseconds is an `int64`.
abbrev pub to_int64 : ℕ → ℤ
to_int64 r = if ltb r (2 ^ 63) then pos r else negsuc (2 ^ 64 - r - 1)

abbrev pub scaled : ℤ → ℤ
scaled (pos n) = to_int64 (n * 10 ^ 6 % 2 ^ 64)
scaled (negsuc n) = to_int64 ((2 ^ 64 - suc n * 10 ^ 6 % 2 ^ 64) % 2 ^ 64)

abbrev pub default_statement_timeout : ℤ
default_statement_timeout = pos (30 * 10 ^ 9)

-- `resolveStatementTimeout`.
unfoldable pub resolve_statement_timeout : Option Value → Got ℤ
resolve_statement_timeout none = got default_statement_timeout
resolve_statement_timeout (some (number n)) =
    got (if n.above_zero then scaled n.whole else default_statement_timeout)
resolve_statement_timeout (some _) = bad not_number

-- `WithStatementTimeout`.
unfoldable pub with_statement_timeout : ℤ → ℤ
with_statement_timeout (pos (suc d)) = pos (suc d)
with_statement_timeout _ = default_statement_timeout

-- `Milliseconds`, of a duration that is not negative.
abbrev pub milliseconds : ℤ → ℕ
milliseconds (pos d) = d / 10 ^ 6
milliseconds (negsuc d) = 0

-- `resolveMaxRows`.
unfoldable pub resolve_max_rows : Option Value → ℤ → Got ℤ
resolve_max_rows none default = got default
resolve_max_rows (some (number n)) default = got (if n.below_zero then pos 0 else n.whole)
resolve_max_rows (some _) default = bad not_number

abbrev pub target_argument : Value → Argument
target_argument (text s) = Argument.text s
target_argument _ = Argument.not_text

abbrev pub map_target : Option Value → Option Argument
map_target none = none
map_target (some v) = some (target_argument v)

abbrev pub got_target : Resolved → Got Bytes
got_target (tool_error e) = bad (bad_target e)
got_target (resolved t) = got t

-- `tlsStringParam`.
unfoldable pub tls_string_param : Option Value → Got Bytes
tls_string_param none = got []
tls_string_param (some null) = got []
tls_string_param (some (text s)) = got (trim_space s)
tls_string_param (some _) = bad not_string

-- The arguments of a call of the tool.
pub record Arguments : Type 0 where
  pub sql : Option Value
  pub dsn : Option Value
  pub target_version : Option Value
  pub statement_timeout : Option Value
  pub max_rows : Option Value
  pub ssl_mode : Option Value
  pub ssl_root_cert : Option Value
  pub ssl_cert : Option Value
  pub ssl_key : Option Value
  pub mode : Got Mode

-- `resolveTLSParams`.
unfoldable pub resolve_tls_params : Arguments → Got TlsParams
unfolding and_then tls_string_param
resolve_tls_params a = and_then (tls_string_param a.ssl_mode) (λ mode.
    and_then (tls_string_param a.ssl_root_cert) (λ root_cert.
      and_then (tls_string_param a.ssl_cert) (λ cert. and_then (tls_string_param a.ssl_key) (λ key.
        got (record {
          ssl_mode = mode;
          ssl_root_cert = root_cert;
          ssl_cert = cert;
          ssl_key = key;
        })))))

-- The arguments that the handler resolves before anything else.
pub record Ready : Type 0 where
  pub sql : Bytes
  pub dsn : Bytes
  pub target : Bytes
  pub mode : Mode
  pub timeout : ℤ
  pub max_rows : ℤ

-- The start of `ExecuteSQLHandler`, with the server's target version as the default.
unfoldable pub resolve_arguments : Bytes → Arguments → Got Ready
unfolding and_then extract_required_string resolve_statement_timeout resolve_max_rows
resolve_arguments default a = and_then (extract_required_string a.sql) (λ sql.
    and_then (extract_required_string a.dsn) (λ dsn.
      and_then (got_target (resolve_target_version (map_target a.target_version) default))
        (λ target. and_then a.mode (λ mode.
          and_then (resolve_statement_timeout a.statement_timeout) (λ timeout.
            and_then (resolve_max_rows a.max_rows (pos 1000)) (λ max_rows. got (record {
              sql = sql;
              dsn = dsn;
              target = target;
              mode = mode;
              timeout = timeout;
              max_rows = max_rows;
            })))))))
