-- ===== src/Risk/Critical.antt =====
-- Which statements the default rules call critical.
use mathlib.Core.List.{Memᴰ}
use mathlib.Core.List.Memᴰ
use sql_ai_tools.Prelude.{
  ◌≡◌, ◌≢◌, refl, ◌↔◌, sym, ap, ◌∙◌, Bool, true, false, not, ◌&&◌, ◌||◌, List, [], ◌∷◌, ◌++◌,
  Option, none, some, ◌>>=◌, Bytes, arith, inl, inr, if◌then◌else◌,
}
use sql_ai_tools.Position.{Position}
use sql_ai_tools.Risk.{Severity, critical, Finding, CheckInput, Rule, stamp, call_check, run_rules}
use sql_ai_tools.Risk.Tree.{
  Body, select_clause, other_body, LockingStrength, Offset, for_share, for_update, other_strength,
  Select, Ast, delete, update, drop_table, drop_database, select, truncate, alter_table,
  create_table, prepare_transaction, commit_prepared, rollback_prepared, savepoint,
  release_savepoint, rollback_to_savepoint, begin_transaction, commit_transaction,
  rollback_transaction, other_statement,
}
use sql_ai_tools.Risk.Rules.{
  check_delete, check_update, check_drop_table, check_drop_database, check_truncate,
}
use sql_ai_tools.Risk.Selects.{
  is_some, has_strength, select_has_locking_strength, body_has_where, select_has_where,
  check_locking,
}
use sql_ai_tools.Risk.Defaults.{default_rules}

-- A body that is no SELECT clause, as a SELECT in parentheses, or one without a WHERE of its own.
abbrev pub IsUnfiltered : Body → Type 0
IsUnfiltered (select_clause exprs has_where) = has_where ≡ false
IsUnfiltered other_body = Unit

IsUnfiltered-iff : (body : Body) → (body_has_where body ≡ false) ↔ IsUnfiltered body
unfolding body_has_where
IsUnfiltered-iff (select_clause exprs has_where) = (λ h. h, λ h. h)
IsUnfiltered-iff other_body = (λ h. tt, λ h. refl)

-- DELETE and UPDATE with neither a WHERE nor a LIMIT, a DROP of tables or of a database, TRUNCATE, and
-- a SELECT with a FOR UPDATE item, without a LIMIT or an OFFSET, whose body is unfiltered.
abbrev pub Dangerous : Ast → Type 0
Dangerous (delete has_where has_limit) = (has_where ≡ false) × (has_limit ≡ false)
Dangerous (update has_where has_limit) = (has_where ≡ false) × (has_limit ≡ false)
Dangerous (drop_table names) = Unit
Dangerous (drop_database name) = Unit
Dangerous (truncate tables cascade) = Unit
Dangerous (select sel) =
    Memᴰ (some for_update) sel.locking × (sel.limit ≡ none) × IsUnfiltered sel.body
Dangerous _ = ⊥

abbrev pub is_critical : Severity → Bool
is_critical critical = true
is_critical _ = false

abbrev pub any_critical : List Finding → Bool
any_critical [] = false
any_critical (f ∷ fs) = is_critical f.severity || any_critical fs

abbrev nonempty : List Finding → Bool
nonempty [] = false
nonempty (f ∷ fs) = true

abbrev fires : Option (CheckInput → List Finding) → CheckInput → Bool
fires none input = false
fires (some check) input = nonempty (check input)

-- Whether a critical rule gives a finding.
critical_by : List Rule → CheckInput → Bool
critical_by [] input = false
critical_by (rule ∷ rules) input =
    is_critical rule.severity && fires rule.check input || critical_by rules input

any_critical-append :
    (fs gs : List Finding) → any_critical (fs ++ gs) ≡ any_critical fs || any_critical gs
any_critical-append [] gs = refl
any_critical-append (f ∷ fs) gs = ground (arith, any_critical-append fs gs)

any_critical-stamp :
    (code : Bytes) (severity : Severity) (fs : List Finding)
    → any_critical (stamp code severity fs) ≡ is_critical severity && nonempty fs
unfolding stamp
any_critical-stamp code severity [] = ground arith
any_critical-stamp code severity (f ∷ fs) = ground (arith, any_critical-stamp code severity fs)

abbrev found_of : Option (List Finding) → List Finding
found_of none = []
found_of (some fs) = fs

call_check-critical :
    (check : Option (CheckInput → List Finding)) (code : Bytes) (severity : Severity)
    (input : CheckInput) (later : Option (List Finding)) (rest : Bool) (fs : List Finding)
    → ((gs : List Finding) → later ≡ some gs → any_critical gs ≡ rest)
    → (call_check check code severity input >>= (λ now. later >>= (λ gs. some (now ++ gs))))
      ≡ some fs
    → any_critical fs ≡ is_critical severity && fires check input || rest
unfolding call_check
call_check-critical none code severity input later rest fs h e = absurd cc
call_check-critical (some check) code severity input none rest fs h e = absurd cc
call_check-critical (some check) code severity input (some gs) rest fs h e =
    let same : stamp code severity (check input) ++ gs ≡ fs = ap found_of e in
    ap any_critical (sym same)
    ∙ any_critical-append (stamp code severity (check input)) gs
    ∙ ap (λ b. b || any_critical gs) (any_critical-stamp code severity (check input))
    ∙ ap (λ b. is_critical severity && nonempty (check input) || b) (h gs refl)

run_rules-critical_by :
    (rules : List Rule) (input : CheckInput) (fs : List Finding)
    → run_rules rules input ≡ some fs
    → any_critical fs ≡ critical_by rules input
unfolding run_rules critical_by
run_rules-critical_by [] input fs e = let same : [] ≡ fs = ap found_of e in rw (← same) refl
run_rules-critical_by (rule ∷ rules) input fs e =
    call_check-critical rule.check rule.reason_code rule.severity input (run_rules rules input)
      (critical_by rules input) fs (run_rules-critical_by rules input) e

Mem-skip :
    (o : Option LockingStrength) (items : List (Option LockingStrength)) (b : Bool)
    → o ≢ some for_update
    → (b ≡ true) ↔ Memᴰ (some for_update) items
    → (b ≡ true) ↔ Memᴰ (some for_update) (o ∷ items)
Mem-skip o items b ne ih = (
  λ h. Memᴰ.tail (ih.0 h),
  λ m. elim (Memᴰ.cases_cons m) [ inl e ↦ absurd (ne (sym e)) | inr m' ↦ ih.1 m' ],
)

has_strength-Mem :
    (items : List (Option LockingStrength))
    → (has_strength for_update items ≡ true) ↔ Memᴰ (some for_update) items
unfolding has_strength
has_strength-Mem [] = (λ h. absurd cc, λ m. absurd (Memᴰ.not-nil m))
has_strength-Mem (none ∷ items) = Mem-skip none items _ (λ h. cc) (has_strength-Mem items)
has_strength-Mem (some for_share ∷ items) =
    Mem-skip (some for_share) items _ (λ h. cc) (has_strength-Mem items)
has_strength-Mem (some other_strength ∷ items) =
    Mem-skip (some other_strength) items _ (λ h. cc) (has_strength-Mem items)
has_strength-Mem (some for_update ∷ items) = (λ h. Memᴰ.head refl, λ m. refl)

locking_flags :
    (b : Bool) (limit : Option (Option Offset)) (has_where : Bool) (f : Finding)
    → (nonempty (if not b then [] else if is_some limit || has_where then [] else f ∷ []) || false
        ≡ true)
      ↔ ((b ≡ true) × (limit ≡ none) × (has_where ≡ false))
locking_flags false limit w f = (λ h. absurd cc, λ h. absurd (let e = h.0 in cc))
locking_flags true (some o) w f = (λ h. absurd cc, λ h. absurd (let e = h.1 in cc))
locking_flags true none true f = (λ h. absurd cc, λ h. absurd (let e = h.2 in cc))
locking_flags true none false f = (λ h. (refl, refl, refl), λ h. refl)

locking-Dangerous :
    (message : Bytes) (at : Position) (sel : Select)
    → (nonempty (check_locking for_update message at (select sel)) || false ≡ true)
      ↔ Dangerous (select sel)
unfolding check_locking select_has_locking_strength select_has_where
locking-Dangerous message at sel =
    let flags =
      locking_flags (has_strength for_update sel.locking) sel.limit (body_has_where sel.body) _ in
    (
      λ h.
          let (b, l, w) = flags.0 h in
          ((has_strength-Mem sel.locking).0 b, l, (IsUnfiltered-iff sel.body).0 w),
      λ (m, l, w). flags.1 ((has_strength-Mem sel.locking).1 m, l, (IsUnfiltered-iff sel.body).1 w),
    )

unguarded-cases :
    (a b : Bool) (f : Finding)
    → (nonempty (if a || b then [] else f ∷ []) || false ≡ true) ↔ ((a ≡ false) × (b ≡ false))
unguarded-cases true b f = (λ h. absurd cc, λ (e, e'). absurd cc)
unguarded-cases false true f = (λ h. absurd cc, λ (e, e'). absurd cc)
unguarded-cases false false f = (λ h. (refl, refl), λ h. refl)

critical_by-Dangerous :
    (at : Position) (ast : Ast) (sql : Bytes)
    → (critical_by default_rules (record { ast = ast; stmt_sql = sql; position = at }) ≡ true)
      ↔ Dangerous ast
unfolding critical_by check_delete check_update check_drop_table check_drop_database check_locking
    check_truncate
critical_by-Dangerous at (delete w l) sql = unguarded-cases w l _
critical_by-Dangerous at (update w l) sql = unguarded-cases w l _
critical_by-Dangerous at (drop_table names) sql = (λ h. tt, λ h. refl)
critical_by-Dangerous at (drop_database name) sql = (λ h. tt, λ h. refl)
critical_by-Dangerous at (truncate tables cascade) sql = (λ h. tt, λ h. refl)
critical_by-Dangerous at (select sel) sql = locking-Dangerous _ at sel
critical_by-Dangerous at (alter_table table cmds) sql = (λ h. cc, λ h. absurd h)
critical_by-Dangerous at (create_table ct) sql = (λ h. cc, λ h. absurd h)
critical_by-Dangerous at prepare_transaction sql = (λ h. cc, λ h. absurd h)
critical_by-Dangerous at commit_prepared sql = (λ h. cc, λ h. absurd h)
critical_by-Dangerous at rollback_prepared sql = (λ h. cc, λ h. absurd h)
critical_by-Dangerous at (savepoint name) sql = (λ h. cc, λ h. absurd h)
critical_by-Dangerous at (release_savepoint name) sql = (λ h. cc, λ h. absurd h)
critical_by-Dangerous at (rollback_to_savepoint name) sql = (λ h. cc, λ h. absurd h)
critical_by-Dangerous at begin_transaction sql = (λ h. cc, λ h. absurd h)
critical_by-Dangerous at commit_transaction sql = (λ h. cc, λ h. absurd h)
critical_by-Dangerous at rollback_transaction sql = (λ h. cc, λ h. absurd h)
critical_by-Dangerous at other_statement sql = (λ h. cc, λ h. absurd h)

-- Where the default rules return, they give a critical finding exactly for a DELETE or UPDATE with
-- neither a WHERE nor a LIMIT, DROP TABLE, DROP DATABASE, TRUNCATE, and a SELECT with a FOR UPDATE item
-- that has neither a LIMIT nor an OFFSET and whose body is no SELECT clause with a WHERE of its own, so
-- that a SELECT in parentheses counts as one without.
pub critical_iff :
    (input : CheckInput) (fs : List Finding)
    → run_rules default_rules input ≡ some fs
    → (any_critical fs ≡ true) ↔ Dangerous input.ast
critical_iff input fs e =
    rw (run_rules-critical_by default_rules input fs e)
      (critical_by-Dangerous input.position input.ast input.stmt_sql)
