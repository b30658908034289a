-- ===== src/Risk/Stamped.antt =====
-- What the registry guarantees of the findings of an analysis.
use mathlib.Core.List.{Memᴰ}
use sql_ai_tools.Prelude.{
  ℕ, ◌≡◌, refl, ap, inr, List, [], ◌∷◌, ◌++◌, Option, none, some, Bytes, All, All-append, length,
  suc, ◌>>=◌,
}
use sql_ai_tools.Risk.Tree.{Statement}
use sql_ai_tools.Position.{Position}
use sql_ai_tools.Risk.{
  Severity, Finding, CheckInput, Rule, MultiCheckInput, MultiRule, Registry, new_registry, stamp,
  call_check, run_rules, run_multi_rules, check_statements, analyze_parsed, position_from_sql,
}
use sql_ai_tools.Risk.Registered.{HasCheck, Distinct, push_codes, new_registry-Registered}

-- The finding carries the reason code and the severity of a rule of the registry.
pub data FromRule (r : Registry) (f : Finding) : Type 0 where
  from_rule :
      (rule : Rule)
      → Memᴰ rule r.rules
      → f.reason_code ≡ rule.reason_code
      → f.severity ≡ rule.severity
      → FromRule r f
  from_multi_rule :
      (rule : MultiRule)
      → Memᴰ rule r.multi_rules
      → f.reason_code ≡ rule.reason_code
      → f.severity ≡ rule.severity
      → FromRule r f

All-tabulate : {A : Type 0} (P : A → Type 0) (xs : List A) → ((x : A) → Memᴰ x xs → P x) → All P xs
All-tabulate P [] h = tt
All-tabulate P (x ∷ xs) h = (h x (Memᴰ.head refl), All-tabulate P xs (λ y m. h y (Memᴰ.tail m)))

module _ (P : Finding → Type 0) where
  -- `P` holds of every finding with the code and the severity.
  abbrev Marks : Bytes → Severity → Type 0
  Marks code severity = (f : Finding) → f.reason_code ≡ code → f.severity ≡ severity → P f

  stamp-All :
      (code : Bytes) (severity : Severity)
      → Marks code severity
      → (fs : List Finding) → All P (stamp code severity fs)
  unfolding stamp
  stamp-All code severity h [] = tt
  stamp-All code severity h (f ∷ fs) = (h _ refl refl, stamp-All code severity h fs)

  -- The analysis gives findings, and `P` holds of each.
  abbrev pub Gives : Option (List Finding) → Type 0
  Gives o = (fs : List Finding) × (o ≡ some fs) × All P fs

  call_check-Gives :
      {I : Type 0} (check : Option (I → List Finding)) (code : Bytes) (severity : Severity)
      (input : I)
      → HasCheck check
      → Marks code severity
      → Gives (call_check check code severity input)
  unfolding call_check
  call_check-Gives none code severity input h m = absurd h
  call_check-Gives (some check) code severity input h m =
      (_, refl, stamp-All code severity m (check input))

  Gives-join :
      (a b : Option (List Finding))
      → Gives a
      → Gives b
      → Gives (a >>= (λ found. b >>= (λ later. some (found ++ later))))
  Gives-join a b (fs, ea, ha) (gs, eb, hb) = rw (ea, eb) (_, refl, All-append P fs gs ha hb)

  run_rules-Gives :
      (rules : List Rule) (input : CheckInput)
      → All (λ (rule : Rule). HasCheck rule.check) rules
      → All (λ (rule : Rule). Marks rule.reason_code rule.severity) rules
      → Gives (run_rules rules input)
  unfolding run_rules
  run_rules-Gives [] input h m = ([], refl, tt)
  run_rules-Gives (rule ∷ rules) input h m =
      Gives-join (call_check rule.check rule.reason_code rule.severity input)
        (run_rules rules input)
        (call_check-Gives rule.check rule.reason_code rule.severity input h.0 m.0)
        (run_rules-Gives rules input h.1 m.1)

  run_multi_rules-Gives :
      (rules : List MultiRule) (input : MultiCheckInput)
      → All (λ (rule : MultiRule). HasCheck rule.check) rules
      → All (λ (rule : MultiRule). Marks rule.reason_code rule.severity) rules
      → Gives (run_multi_rules rules input)
  unfolding run_multi_rules
  run_multi_rules-Gives [] input h m = ([], refl, tt)
  run_multi_rules-Gives (rule ∷ rules) input h m =
      Gives-join (call_check rule.check rule.reason_code rule.severity input)
        (run_multi_rules rules input)
        (call_check-Gives rule.check rule.reason_code rule.severity input h.0 m.0)
        (run_multi_rules-Gives rules input h.1 m.1)

  -- The loop over the statements gives findings and one position for each.
  abbrev GivesBoth : ℕ → Option (List Finding × List Position) → Type 0
  GivesBoth n o =
      (fs : List Finding) × (ps : List Position) × (o ≡ some (fs, ps)) × All P fs × (length ps ≡ n)

  check_statements-GivesBoth :
      (rules : List Rule) (sql : Bytes) (offset : ℕ) (stmts : List Statement)
      → All (λ (rule : Rule). HasCheck rule.check) rules
      → All (λ (rule : Rule). Marks rule.reason_code rule.severity) rules
      → GivesBoth (length stmts) (check_statements rules sql offset stmts)
  unfolding check_statements
  check_statements-GivesBoth rules sql offset [] h m = ([], [], refl, tt, refl)
  check_statements-GivesBoth rules sql offset (stmt ∷ stmts) h m =
      let place = position_from_sql sql stmt.sql offset in
      let (fs, ef, hf) =
        run_rules-Gives rules (record { ast = stmt.ast; stmt_sql = stmt.sql; position = place.0 }) h
          m in
      let (gs, ps, eg, hg, n) = check_statements-GivesBoth rules sql place.1 stmts h m in
      rw (ef, eg) (fs ++ gs, place.0 ∷ ps, refl, All-append P fs gs hf hg, ap suc n)

analyze_parsed-Gives :
    (r : Registry) (stmts : List Statement) (sql : Bytes)
    → All (λ (rule : Rule). HasCheck rule.check) r.rules
    → All (λ (rule : MultiRule). HasCheck rule.check) r.multi_rules
    → Gives (FromRule r) (analyze_parsed r stmts sql)
unfolding analyze_parsed
analyze_parsed-Gives r stmts sql h h' =
    let (fs, ps, ef, hf, n) =
      check_statements-GivesBoth (FromRule r) r.rules sql 0 stmts h
        (All-tabulate _ r.rules (λ rule m f. from_rule rule m)) in
    let (gs, eg, hg) =
      run_multi_rules-Gives (FromRule r) r.multi_rules (record { stmts = stmts; positions = ps }) h'
        (All-tabulate _ r.multi_rules (λ rule m f. from_multi_rule rule m)) in
    rw (ef, eg) (fs ++ gs, refl, All-append (FromRule r) fs gs hf hg)

-- A registry that `NewRegistry` has made analyses every list of statements without a panic, and each
-- finding carries the reason code and the severity of one of its rules; no code is empty, and no two
-- rules share one, so the code names the rule.
pub analyze_parsed-FromRule :
    (rules : List Rule) (multi_rules : List MultiRule) (r : Registry)
    → new_registry rules multi_rules ≡ inr r
    → (stmts : List Statement) (sql : Bytes)
    → Distinct (
        push_codes
          (λ (rule : MultiRule). rule.reason_code)
          r.multi_rules
          (push_codes (λ (rule : Rule). rule.reason_code) r.rules []))
      × Gives (FromRule r) (analyze_parsed r stmts sql)
analyze_parsed-FromRule rules multi_rules r e stmts sql =
    let reg = new_registry-Registered rules multi_rules r e in
    let whole = reg.made_of in
    (
      rw whole reg.distinct,
      analyze_parsed-Gives r stmts sql (rw whole reg.checks) (rw whole reg.multi_checks),
    )
