-- ===== src/Execute/Admitted.antt =====
-- What the tool execute_sql lets through to a cluster.
use sql_ai_tools.Prelude.{
  zero, suc, ◌≡◌, refl, Bool, List, [], Option, none, some, Bytes, All, ◌⊎◌, inl, inr,
}
use sql_ai_tools.Prelude.Int.{ℤ, pos, negsuc}
use sql_ai_tools.Safety.Mode.{Mode, read_only, safe_write, full_access, unknown}
use sql_ai_tools.Safety.Statement.{Statement}
use sql_ai_tools.Safety.Allowlist.{ParseResult, Violation, op_execute, check_parsed}
use sql_ai_tools.Safety.Gate.{IsReadOnly, check_parsed-read_only_iff}
use sql_ai_tools.Safety.Limit.{maybe_inject_limit_parsed, injected, printed}
use sql_ai_tools.Safety.Limit.Injection.{IsCapped, injected_iff}
use sql_ai_tools.Strip.{strip_shell_prompts_with_map}
use sql_ai_tools.Tls.{Result, merged, rejected, TlsParams, merge_tls_params}
use sql_ai_tools.Execute.{access_read_only, Call, tx_options_for_mode}
use sql_ai_tools.Execute.Conversation.{execute-Talked}
use sql_ai_tools.Execute.Fits.{Kept, fresh, answered-Kept}
use sql_ai_tools.Execute.Arguments.{
  Arguments, Ready, Got, bad, got, with_statement_timeout, milliseconds, resolve_tls_params,
  resolve_arguments,
}
use sql_ai_tools.Execute.Tool.{
  Outside, Diagnostic, Handled, kept, rewrite, run_on, on_merge, on_tls, on_verdict, on_parse,
  on_arguments, execute_sql,
}

-- The text as it was written, or the one SELECT under read_only with the cap as its LIMIT.
abbrev pub IsText : (Statement → Bytes) → Mode → ℤ → List Statement → Bytes → Bytes → Type 0
IsText as_string mode max_rows stmts sql text =
    (text ≡ sql)
    ⊎ ((mode ≡ read_only) × (t : Statement) × IsCapped stmts max_rows t × (text ≡ as_string t))

printed-IsText :
    (as_string : Statement → Bytes) (max_rows : ℤ) (stmts : List Statement) (sql : Bytes)
    (o : Option Statement)
    → injected stmts max_rows ≡ o
    → IsText as_string read_only max_rows stmts sql (kept sql (printed as_string o)).0
unfolding kept printed
printed-IsText as_string max_rows stmts sql none e = inl refl
printed-IsText as_string max_rows stmts sql (some t) e =
    inr (refl, t, (injected_iff stmts max_rows t).0 e, refl)

rewrite-IsText :
    (as_string : Statement → Bytes) (mode : Mode) (max_rows : ℤ) (stmts : List Statement)
    (sql : Bytes)
    → IsText as_string mode max_rows stmts sql (rewrite as_string mode max_rows stmts sql).0
unfolding rewrite maybe_inject_limit_parsed
rewrite-IsText as_string read_only (pos (suc n)) stmts sql =
    printed-IsText as_string (pos (suc n)) stmts sql (injected stmts (pos (suc n))) refl
rewrite-IsText as_string read_only (pos zero) stmts sql = inl refl
rewrite-IsText as_string read_only (negsuc n) stmts sql = inl refl
rewrite-IsText as_string safe_write n stmts sql = inl refl
rewrite-IsText as_string full_access n stmts sql = inl refl
rewrite-IsText as_string (unknown s) n stmts sql = inl refl

module _ {E R U V : Type 0} (o : Outside E R U V) (raw : Arguments) where
  -- The calls that were made, if any, belong to a batch that the gate admits.
  pub record Cleared (a : Ready) (sql : Bytes) (calls : List Call) : Type 0 where
    pub stmts : List Statement
    pub text : Bytes
    pub parses : o.parse sql ≡ ParseResult.parsed stmts
    pub admits : check_parsed a.mode op_execute stmts ≡ none
    pub is_text : IsText o.as_string a.mode a.max_rows stmts sql text
    pub kept : Kept a.mode text calls

  abbrev Guarded : Ready → Bytes → Handled E R → Type 0
  Guarded a sql r = (r.1 ≡ []) ⊎ Cleared a sql r.1

  module _ (a : Ready) (notes : List (Diagnostic E)) (sql : Bytes) (stmts : List Statement) where
    run_on-Kept :
        (text : Bytes × Bool) (dsn : Bytes) → Kept a.mode text.0 (run_on o a notes text dsn).1
    unfolding run_on
    run_on-Kept (text, b) dsn =
        let ms = milliseconds (with_statement_timeout a.timeout) in
        answered-Kept a.mode text notes b a.max_rows ms _
          (execute-Talked (o.driver dsn) a.mode text a.max_rows (fresh ms))

    on_tls-Guarded :
        (p : Got TlsParams)
        → o.parse sql ≡ ParseResult.parsed stmts
        → check_parsed a.mode op_execute stmts ≡ none
        → Guarded a sql (on_tls o a notes (rewrite o.as_string a.mode a.max_rows stmts sql) p)
    unfolding on_tls on_merge
    on_tls-Guarded (bad e) parses admits = inl refl
    on_tls-Guarded (got p) parses admits = merged-Guarded (merge_tls_params o.urls a.dsn p)
      where
        merged-Guarded :
            (r : Result Bytes)
            → Guarded a sql (on_merge o a notes (rewrite o.as_string a.mode a.max_rows stmts sql) r)
        merged-Guarded (rejected e) = inl refl
        merged-Guarded (merged dsn) = inr (record {
          stmts = stmts;
          text = (rewrite o.as_string a.mode a.max_rows stmts sql).0;
          parses = parses;
          admits = admits;
          is_text = rewrite-IsText o.as_string a.mode a.max_rows stmts sql;
          kept = run_on-Kept (rewrite o.as_string a.mode a.max_rows stmts sql) dsn;
        })

    on_verdict-Guarded :
        (v : Option Violation)
        → o.parse sql ≡ ParseResult.parsed stmts
        → check_parsed a.mode op_execute stmts ≡ v
        → Guarded a sql (on_verdict o raw a notes sql stmts v)
    unfolding on_verdict
    on_verdict-Guarded (some v) parses e = inl refl
    on_verdict-Guarded none parses e = on_tls-Guarded (resolve_tls_params raw) parses e

  on_parse-Guarded :
      (a : Ready) (notes : List (Diagnostic E)) (sql : Bytes) (r : ParseResult E)
      → o.parse sql ≡ r
      → Guarded a sql (on_parse o raw a notes sql r)
  unfolding on_parse
  on_parse-Guarded a notes sql (ParseResult.failed e) h = inl refl
  on_parse-Guarded a notes sql (ParseResult.parsed stmts) h =
      on_verdict-Guarded a notes sql stmts (check_parsed a.mode op_execute stmts) h refl

  -- The handler makes no call, or its calls belong to the resolved arguments.
  pub record Lets (default : Bytes) (calls : List Call) : Type 0 where
    pub ready : Ready
    pub resolves : resolve_arguments default raw ≡ got ready
    pub cleared : Cleared ready (strip_shell_prompts_with_map ready.sql).stripped calls
    pub reads :
        ready.mode ≡ read_only
        → All IsReadOnly cleared.stmts × (tx_options_for_mode ready.mode ≡ some access_read_only)

  IsReadOnly-Cleared :
      (a : Ready) (sql : Bytes) (calls : List Call) (c : Cleared a sql calls)
      → a.mode ≡ read_only
      → All IsReadOnly c.stmts × (tx_options_for_mode a.mode ≡ some access_read_only)
  unfolding tx_options_for_mode
  IsReadOnly-Cleared a sql calls c e =
      (((check_parsed-read_only_iff op_execute c.stmts refl).0 (rw (← e) c.admits)).1, rw e refl)

  on_arguments-Lets :
      (default : Bytes) (g : Got Ready)
      → resolve_arguments default raw ≡ g
      → ((on_arguments o raw g).1 ≡ []) ⊎ Lets default (on_arguments o raw g).1
  unfolding on_arguments
  on_arguments-Lets default (bad e) h = inl refl
  on_arguments-Lets default (got a) h =
      elim (on_parse-Guarded a _ (strip_shell_prompts_with_map a.sql).stripped _ refl) [
        | inl e ↦ inl e
        | inr c ↦
            inr
              (record { ready = a; resolves = h; cleared = c; reads = IsReadOnly-Cleared a _ _ c })
      ]

  -- The tool execute_sql calls the driver only for arguments that resolve, a text that parses and a
  -- batch that the gate admits under the mode. The only query it can send is then the text without
  -- its prompts or, under read_only, the batch's one SELECT with the cap as its LIMIT; the transaction
  -- has the access of the mode, so that under read_only it is a read-only one and every statement is
  -- read-only by the parser's predicates; and the last call closes the connection, where there was one.
  pub execute_sql-Lets :
      (default : Bytes)
      → ((execute_sql o default raw).1 ≡ []) ⊎ Lets default (execute_sql o default raw).1
  unfolding execute_sql
  execute_sql-Lets default = on_arguments-Lets default (resolve_arguments default raw) refl
