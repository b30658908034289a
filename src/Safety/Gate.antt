-- ===== src/Safety/Gate.antt =====
-- What internal/safety/allowlist.go admits: the gate as a whole, over every parsed batch.
use sql_ai_tools.Prelude.{
  ◌≡◌, refl, ◌≢◌, ◌↔◌, ◌⊎◌, Bool, true, false, none, some, List, [], ◌∷◌, ◌++◌, arith, All,
}
use sql_ai_tools.Safety.Mode.{Mode, read_only, safe_write, full_access}
use sql_ai_tools.Safety.Statement.{
  Statement, Node, StatementType, explain, explain_analyze, alter_tenant_capability,
  alter_tenant_replication, create_tenant_from_replication, ddl, dml, dcl, is_explain, is_dcl,
}
use sql_ai_tools.Safety.Allowlist.{
  Operation, op_explain, op_simulate, op_execute, Violation, is_tenant_mgmt_dml_stmt, classify,
  first_violation, check_parsed,
}

-- The operations that hand the user's statement itself to the cluster, wrapped or not.
abbrev pub is_direct : Operation → Bool
is_direct op_explain = true
is_direct op_execute = true
is_direct _ = false

-- A statement that is no EXPLAIN wrapper, and changes no tenant's capabilities or replication.
abbrev pub IsPlain : Node → Type 0
IsPlain explain = ⊥
IsPlain explain_analyze = ⊥
IsPlain alter_tenant_capability = ⊥
IsPlain alter_tenant_replication = ⊥
IsPlain create_tenant_from_replication = ⊥
IsPlain _ = Unit

-- A plain statement that is no DCL, and that the parser does not report as a change.
pub record IsReadOnly (s : Statement) : Type 0 where
  pub plain : IsPlain s.node
  pub no_dcl : s.statement_type ≢ dcl
  pub no_schema : s.modifies_schema ≡ false
  pub no_write : s.writes_data ≡ false

IsPlain-iff :
    (k : Node) → IsPlain k ↔ ((is_explain k ≡ false) × (is_tenant_mgmt_dml_stmt k ≡ false))
unfolding is_tenant_mgmt_dml_stmt
IsPlain-iff explain = (λ h. absurd h, λ h. cc)
IsPlain-iff explain_analyze = (λ h. absurd h, λ h. cc)
IsPlain-iff alter_tenant_capability = (λ h. absurd h, λ h. cc)
IsPlain-iff alter_tenant_replication = (λ h. absurd h, λ h. cc)
IsPlain-iff create_tenant_from_replication = (λ h. absurd h, λ h. cc)
IsPlain-iff _ = (λ h. (refl, refl), λ h. tt)

is_dcl_iff : (t : StatementType) → (t ≢ dcl) ↔ (is_dcl t ≡ false)
is_dcl_iff dcl = (λ h. absurd (h refl), λ h. cc)
is_dcl_iff _ = (λ h. refl, λ h e. cc)

first_violation-eq-none :
    (mode : Mode) (op : Operation) (stmts : List Statement)
    → (first_violation mode op stmts ≡ none) ↔ All (λ s. classify mode op s ≡ none) stmts
unfolding first_violation
first_violation-eq-none mode op [] = (λ _. tt, λ _. refl)
first_violation-eq-none mode op (s ∷ rest) =
    let ih = first_violation-eq-none mode op rest in
    (λ h. (ground arith, ih.0 (ground arith)), λ (a, b). ground (arith, ih.1 b))

classify-read_only-direct :
    (op : Operation) (s : Statement)
    → is_direct op ≡ true
    → (classify read_only op s ≡ none) ↔ IsReadOnly s
unfolding classify
classify-read_only-direct op_explain s h = (
  λ e. ground (arith, IsPlain-iff s.node, is_dcl_iff s.statement_type),
  λ r. ground (arith, (IsPlain-iff s.node).0 r.plain, (is_dcl_iff s.statement_type).0 r.no_dcl),
)
classify-read_only-direct op_execute s h = (
  λ e. ground (arith, IsPlain-iff s.node, is_dcl_iff s.statement_type),
  λ r. ground (arith, (IsPlain-iff s.node).0 r.plain, (is_dcl_iff s.statement_type).0 r.no_dcl),
)
classify-read_only-direct _ s h = cc

All-map {ℓ κ ν} :
    {A : Type ℓ} {P : A → Type κ} {Q : A → Type ν} (xs : List A)
    → ((x : A) → P x → Q x)
    → All P xs
    → All Q xs
All-map [] f h = tt
All-map (x ∷ xs) f h = (f x h.0, All-map xs f h.1)

check_parsed-eq-none :
    (mode : Mode) (op : Operation) (stmts : List Statement)
    → (check_parsed mode op stmts ≡ none)
      ↔ ((stmts ≢ []) × All (λ s. classify mode op s ≡ none) stmts)
unfolding check_parsed
check_parsed-eq-none mode op [] = (λ h. cc, λ (a, b). absurd (a refl))
check_parsed-eq-none mode op (s ∷ rest) =
    let both = first_violation-eq-none mode op (s ∷ rest) in
    (λ h. (cc, both.0 h), λ (a, b). both.1 b)

-- Under read_only, explain and execute admit a batch exactly when it is not empty and no statement
-- of it is an EXPLAIN wrapper, a DCL statement, a change of a tenant's capabilities or replication, a
-- schema change or a write.
pub check_parsed-read_only_iff :
    (op : Operation) (stmts : List Statement)
    → is_direct op ≡ true
    → (check_parsed read_only op stmts ≡ none) ↔ ((stmts ≢ []) × All IsReadOnly stmts)
check_parsed-read_only_iff op stmts h =
    let both = check_parsed-eq-none read_only op stmts in
    (
      λ e. (
        (both.0 e).0,
        All-map stmts (λ s p. (classify-read_only-direct op s h).0 p) (both.0 e).1,
      ),
      λ (a, b). both.1 (a, All-map stmts (λ s p. (classify-read_only-direct op s h).1 p) b),
    )

-- A batch is rejected by its first rejected statement: what stands behind it does not matter, and
-- what stands before it was admitted.
check_parsed-first :
    (mode : Mode) (op : Operation) (before : List Statement) (s : Statement)
    (after : List Statement) (v : Violation)
    → All (λ t. classify mode op t ≡ none) before
    → classify mode op s ≡ some v
    → check_parsed mode op (before ++ s ∷ after) ≡ some v
unfolding check_parsed first_violation
check_parsed-first mode op [] s after v hb hs = ground arith
check_parsed-first mode op (t ∷ []) s after v hb hs = ground arith
check_parsed-first mode op (t ∷ u ∷ before) s after v hb hs =
    ground (arith, check_parsed-first mode op (u ∷ before) s after v hb.1 hs)

classify-simulate :
    (s : Statement)
    → (classify read_only op_simulate s ≡ none)
      ↔ ((is_explain s.node ≡ false) × ((s.statement_type ≡ ddl) ⊎ (s.statement_type ≡ dml)))
unfolding classify
classify-simulate s = (λ h. ground arith, λ h. ground arith)

-- Simulate admits a batch under read_only exactly when it is not empty and each statement is DDL
-- or DML and no EXPLAIN wrapper; under safe_write and full_access it admits none.
pub check_parsed-simulate :
    (stmts : List Statement)
    → ((check_parsed read_only op_simulate stmts ≡ none) ↔ (
        (stmts ≢ [])
        × All
            (λ s.
              (is_explain s.node ≡ false) × ((s.statement_type ≡ ddl) ⊎ (s.statement_type ≡ dml)))
            stmts))
      × (check_parsed safe_write op_simulate stmts ≢ none)
      × (check_parsed full_access op_simulate stmts ≢ none)
unfolding check_parsed first_violation classify
check_parsed-simulate stmts =
    let both = check_parsed-eq-none read_only op_simulate stmts in
    (
      (
        λ e. ((both.0 e).0, All-map stmts (λ s. (classify-simulate s).0) (both.0 e).1),
        λ (a, b). both.1 (a, All-map stmts (λ s. (classify-simulate s).1) b),
      ),
      never stmts safe_write (λ s. cc),
      never stmts full_access (λ s. cc),
    )
  where
    never :
        (xs : List Statement) (mode : Mode)
        → ((s : Statement) → classify mode op_simulate s ≢ none)
        → check_parsed mode op_simulate xs ≢ none
    never [] mode h e = cc
    never (s ∷ rest) mode h e = ground (arith, h s)

up_safe :
    (op : Operation)
    → is_direct op ≡ true
    → (s : Statement) → classify read_only op s ≡ none
    → classify safe_write op s ≡ none
unfolding classify
up_safe op_explain h s e = ground arith
up_safe op_execute h s e = ground arith
up_safe _ h s e = cc

up_full :
    (op : Operation)
    → is_direct op ≡ true
    → (s : Statement) → classify safe_write op s ≡ none
    → classify full_access op s ≡ none
unfolding classify
up_full op_explain h s e = refl
up_full op_execute h s e = refl
up_full _ h s e = cc

-- The modes by what they permit.
abbrev pub Below : Mode → Mode → Type 0
Below read_only safe_write = Unit
Below read_only full_access = Unit
Below safe_write full_access = Unit
Below _ _ = ⊥

classify_mono :
    (low high : Mode) (op : Operation) (s : Statement)
    → Below low high
    → is_direct op ≡ true
    → classify low op s ≡ none
    → classify high op s ≡ none
classify_mono read_only safe_write op s b h e = up_safe op h s e
classify_mono read_only full_access op s b h e = up_full op h s (up_safe op h s e)
classify_mono safe_write full_access op s b h e = up_full op h s e
classify_mono _ _ op s b h e = absurd b

-- Raising the mode, from read_only through safe_write to full_access, takes nothing away: a batch that
-- explain or execute admits under a mode is admitted under every higher one.
pub check_parsed_mono :
    (low high : Mode) (op : Operation) (stmts : List Statement)
    → Below low high
    → is_direct op ≡ true
    → check_parsed low op stmts ≡ none
    → check_parsed high op stmts ≡ none
check_parsed_mono low high op stmts b h e =
    let (ne, every) = (check_parsed-eq-none low op stmts).0 e in
    (check_parsed-eq-none high op stmts).1
      (ne, All-map stmts (λ s. classify_mono low high op s b h) every)
