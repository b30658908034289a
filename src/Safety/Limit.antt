-- ===== src/Safety/Limit.antt =====
-- internal/safety/limit.go: the LIMIT that is added to a single unbounded SELECT. The parser and the
-- printer `tree.AsStringWithFlags` are arguments.
pub mod Injection
use sql_ai_tools.Prelude.{
  ℕ, zero, suc, Bytes, Bool, true, false, ◌||◌, Option, none, some, List, [], ◌∷◌,
}
use sql_ai_tools.Prelude.Int.{ℤ, pos, negsuc}
use sql_ai_tools.Safety.Statement.{Statement, Limit, Node, select}
use sql_ai_tools.Safety.Allowlist.{ParseResult, parsed, failed}

is_set : Option ℕ → Bool
is_set none = false
is_set (some _) = true

unfoldable pub select_is_bounded : Option Limit → Bool
unfolding is_set
select_is_bounded none = false
select_is_bounded (some l) = is_set l.count || l.limit_all

set_count : Option Limit → ℕ → Limit
set_count none n = record { count = some n; offset = none; limit_all = false }
set_count (some l) n = record l { count = some n }

inject : Bool → Statement → Option Limit → ℕ → Option Statement
unfolding set_count
inject true s limit n = none
inject false s limit n = some (record s { node = select (some (set_count limit n)) })

bounded_node : Node → Statement → ℕ → Option Statement
unfolding inject select_is_bounded
bounded_node (select limit) s n = inject (select_is_bounded limit) s limit n
bounded_node _ s n = none

-- `MaybeInjectLimitParsed` before the print: the statement as it is changed in place, or none.
unfoldable pub injected : List Statement → ℤ → Option Statement
unfolding bounded_node
injected stmts (negsuc n) = none
injected stmts (pos zero) = none
injected [] (pos (suc n)) = none
injected (s ∷ []) (pos (suc n)) = bounded_node s.node s (suc n)
injected (s ∷ t ∷ rest) (pos (suc n)) = none

unfoldable pub printed : (Statement → Bytes) → Option Statement → Bytes × Bool
printed as_string none = ([], false)
printed as_string (some s) = (as_string s, true)

-- `MaybeInjectLimitParsed`.
unfoldable pub maybe_inject_limit_parsed : (Statement → Bytes) → List Statement → ℤ → Bytes × Bool
unfolding printed injected
maybe_inject_limit_parsed as_string stmts max_rows = printed as_string (injected stmts max_rows)

pub record Rewritten (E : Type 0) : Type 0 where
  pub sql : Bytes
  pub injected : Bool
  pub error : Option E

rewrite_with : {E : Type 0} → Bytes → Bytes × Bool → Rewritten E
rewrite_with sql (text, true) = record { sql = text; injected = true; error = none }
rewrite_with sql (text, false) = record { sql = sql; injected = false; error = none }

parsed_limit : {E : Type 0} → (Statement → Bytes) → Bytes → ParseResult E → ℤ → Rewritten E
unfolding rewrite_with maybe_inject_limit_parsed
parsed_limit as_string sql (failed e) n = record { sql = sql; injected = false; error = some e }
parsed_limit as_string sql (parsed stmts) n =
    rewrite_with sql (maybe_inject_limit_parsed as_string stmts n)

-- `MaybeInjectLimit`.
unfoldable pub maybe_inject_limit :
    {E : Type 0} → (Bytes → ParseResult E) → (Statement → Bytes) → Bytes → ℤ → Rewritten E
unfolding parsed_limit
maybe_inject_limit parse as_string sql (negsuc n) = record {
  sql = sql;
  injected = false;
  error = none;
}
maybe_inject_limit parse as_string sql (pos zero) = record {
  sql = sql;
  injected = false;
  error = none;
}
maybe_inject_limit parse as_string sql (pos (suc n)) =
    parsed_limit as_string sql (parse sql) (pos (suc n))
