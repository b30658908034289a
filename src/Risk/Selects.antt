-- ===== src/Risk/Selects.antt =====
-- internal/risk/rules.go: the rules about SELECT.
use sql_ai_tools.Prelude.{
  Bool, true, false, not, ◌||◌, List, [], ◌∷◌, Option, none, some, Bytes, codes, if◌then◌else◌,
}
use sql_ai_tools.Position.{Position}
use sql_ai_tools.Risk.{critical, high, low, Finding, draft, Rule}
use sql_ai_tools.Risk.Tree.{
  Expr, unqualified_star, unresolved_name, all_columns_selector, other_expr, LockingStrength,
  for_share, for_update, other_strength, Body, select_clause, other_body, Select, Ast, select,
}

-- `p != nil`.
abbrev pub is_some : {A : Type 0} → Option A → Bool
is_some none = false
is_some (some a) = true

-- `isStar`.
unfoldable pub is_star : Expr → Bool
is_star unqualified_star = true
is_star (unresolved_name star) = star
is_star all_columns_selector = true
is_star other_expr = false

abbrev pub same_strength : LockingStrength → LockingStrength → Bool
same_strength for_share for_share = true
same_strength for_update for_update = true
same_strength other_strength other_strength = true
same_strength _ _ = false

-- `selectHasLockingStrength`.
unfoldable pub has_strength : LockingStrength → List (Option LockingStrength) → Bool
has_strength strength [] = false
has_strength strength (none ∷ items) = has_strength strength items
has_strength strength (some s ∷ items) = same_strength s strength || has_strength strength items

unfoldable pub select_has_locking_strength : Select → LockingStrength → Bool
unfolding has_strength
select_has_locking_strength sel strength = has_strength strength sel.locking

unfoldable pub body_has_where : Body → Bool
body_has_where (select_clause exprs has_where) = has_where
body_has_where other_body = false

-- `selectHasWhere`.
unfoldable pub select_has_where : Select → Bool
unfolding body_has_where
select_has_where sel = body_has_where sel.body

-- The check that the two locking rules share, by the strength and the message.
unfoldable pub check_locking : LockingStrength → Bytes → Position → Ast → List Finding
unfolding select_has_locking_strength select_has_where
check_locking strength message at (select sel) =
    if not (select_has_locking_strength sel strength)
    then []
    else if is_some sel.limit || select_has_where sel
    then []
    else draft message at (codes "Add a WHERE clause or LIMIT to scope the lock") ∷ []
check_locking strength message at _ = []

abbrev pub select_for_update_no_where_rule : Rule
select_for_update_no_where_rule = record {
  reason_code = codes "SELECT_FOR_UPDATE_NO_WHERE";
  severity = critical;
  category = codes "data_safety";
  check = some (λ input.
      check_locking for_update
        (codes "SELECT ... FOR UPDATE without WHERE or LIMIT locks every row in the table")
        input.position input.ast);
}

abbrev pub select_for_share_no_where_rule : Rule
select_for_share_no_where_rule = record {
  reason_code = codes "SELECT_FOR_SHARE_NO_WHERE";
  severity = high;
  category = codes "data_safety";
  check = some (λ input.
      check_locking for_share
        (codes "SELECT ... FOR SHARE without WHERE or LIMIT locks every row in the table")
        input.position input.ast);
}

unfoldable pub has_star : List Expr → Bool
unfolding is_star
has_star [] = false
has_star (e ∷ exprs) = is_star e || has_star exprs

unfoldable pub starred : Body → Bool
unfolding has_star
starred (select_clause exprs has_where) = has_star exprs
starred other_body = false

unfoldable pub check_star : Position → Ast → List Finding
unfolding starred
check_star at (select sel) =
    if starred sel.body
    then draft (codes "SELECT * returns all columns and may cause performance issues") at
        (codes "List specific columns instead of using *")
      ∷ []
    else []
check_star at _ = []

abbrev pub select_star_rule : Rule
select_star_rule = record {
  reason_code = codes "SELECT_STAR";
  severity = low;
  category = codes "performance";
  check = some (λ input. check_star input.position input.ast);
}
