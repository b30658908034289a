-- ===== src/Risk/Registered.antt =====
-- What `NewRegistry` makes sure of.
use sql_ai_tools.Prelude.{
  ◌≡◌, ◌≢◌, refl, sym, ap, ◌∙◌, ◌⊎◌, inl, inr, false, List, [], ◌∷◌, Option, none, some, Bytes, All,
  Bool-cases, arith,
}
use sql_ai_tools.Risk.{
  Finding, Rule, MultiRule, Registry, Misconfigured, is_seen, record_code, guarded, add_rule,
  add_multi_rule, add_all, made, new_registry,
}

-- The check is not nil.
abbrev pub HasCheck : {I : Type 0} → Option (I → List Finding) → Type 0
HasCheck none = ⊥
HasCheck (some check) = Unit

-- No code is empty or comes twice.
abbrev pub Distinct : List Bytes → Type 0
Distinct [] = Unit
Distinct (code ∷ codes) = (code ≢ []) × (is_seen code codes ≡ false) × Distinct codes

-- The codes of some rules, put in front one by one.
abbrev pub push_codes : {A : Type 0} → (A → Bytes) → List A → List Bytes → List Bytes
push_codes code [] seen = seen
push_codes code (x ∷ xs) seen = push_codes code xs (code x ∷ seen)

record_code-fresh :
    (empty : Misconfigured) (code : Bytes) (seen out : List Bytes)
    → record_code empty code seen ≡ inr out
    → (out ≡ code ∷ seen) × (code ≢ []) × (is_seen code seen ≡ false)
unfolding record_code
record_code-fresh empty [] seen out e = absurd cc
record_code-fresh empty (c ∷ code) seen out e = elim (Bool-cases (is_seen (c ∷ code) seen)) [
  | inl b ↦ let e' = e in absurd (ground (arith, b, e))
  | inr b ↦ (ground (arith, b, e), (λ h. cc), b)
]

Sum-cases : {A B : Type 0} (s : A ⊎ B) → ((a : A) × (s ≡ inl a)) ⊎ ((b : B) × (s ≡ inr b))
Sum-cases (inl a) = inl (a, refl)
Sum-cases (inr b) = inr (b, refl)

module _ {A : Type 0} (add : A → List Bytes → Misconfigured ⊎ List Bytes) (code : A → Bytes)
    (Good : A → Type 0) where
  -- What one rule that is added is known to be.
  abbrev Adds : Type 0
  Adds =
      (x : A) (seen out : List Bytes)
      → add x seen ≡ inr out
      → (out ≡ code x ∷ seen) × (code x ≢ []) × (is_seen (code x) seen ≡ false) × Good x

  add_all-Distinct :
      Adds
      → (xs : List A) (seen out : List Bytes) → add_all add xs (inr seen) ≡ inr out
      → Distinct seen
      → (out ≡ push_codes code xs seen) × Distinct out × All Good xs
  unfolding add_all
  add_all-Distinct adds [] seen out e d = let same : seen ≡ out = cc in rw (← same) (refl, d, tt)
  add_all-Distinct adds (x ∷ xs) seen out e d = elim (Sum-cases (add x seen)) [
    | inl (m, b) ↦ let stuck : inl m ≡ inr out = sym (ap (add_all add xs) b) ∙ e in absurd cc
    | inr (next, b) ↦
        let (front, filled, fresh, good) = adds x seen next b in
        let e' : add_all add xs (inr (code x ∷ seen)) ≡ inr out =
          sym (ap (add_all add xs) (b ∙ ap inr front)) ∙ e in
        let (same, distinct, rest) =
          add_all-Distinct adds xs (code x ∷ seen) out e' (filled, fresh, d) in
        (same, distinct, (good, rest))
  ]

guarded-fresh :
    {I : Type 0} (nil empty : Misconfigured) (check : Option (I → List Finding)) (code : Bytes)
    (seen out : List Bytes)
    → guarded nil empty check code seen ≡ inr out
    → (out ≡ code ∷ seen) × (code ≢ []) × (is_seen code seen ≡ false) × HasCheck check
unfolding guarded
guarded-fresh nil empty none code seen out e = absurd cc
guarded-fresh nil empty (some check) code seen out e =
    let (front, filled, fresh) = record_code-fresh empty code seen out e in
    (front, filled, fresh, tt)

-- What a registry that `NewRegistry` has made is known to be.
pub record Registered (rules : List Rule) (multi_rules : List MultiRule) (r : Registry)
    : Type 0 where
  pub made_of : r ≡ record { rules = rules; multi_rules = multi_rules }
  pub distinct : Distinct (
      push_codes
        (λ (rule : MultiRule). rule.reason_code)
        multi_rules
        (push_codes (λ (rule : Rule). rule.reason_code) rules []))
  pub checks : All (λ (rule : Rule). HasCheck rule.check) rules
  pub multi_checks : All (λ (rule : MultiRule). HasCheck rule.check) multi_rules

pub new_registry-Registered :
    (rules : List Rule) (multi_rules : List MultiRule) (r : Registry)
    → new_registry rules multi_rules ≡ inr r
    → Registered rules multi_rules r
unfolding new_registry made add_all
new_registry-Registered rules multi_rules r e = elim (Sum-cases (add_all add_rule rules (inr []))) [
  | inl (m, b) ↦
      let stuck : inl m ≡ inr r =
        sym (ap (λ t. made whole (add_all add_multi_rule multi_rules t)) b) ∙ e in
      absurd cc
  | inr (seen, b) ↦
      let next = sym (ap (λ t. made whole (add_all add_multi_rule multi_rules t)) b) ∙ e in
      elim (Sum-cases (add_all add_multi_rule multi_rules (inr seen))) [
        | inl (m, c) ↦ let stuck : inl m ≡ inr r = sym (ap (made whole) c) ∙ next in absurd cc
        | inr (all, c) ↦
            let (s1, d1, good) =
              add_all-Distinct add_rule (λ rule. rule.reason_code) (λ rule. HasCheck rule.check)
                (λ rule was out h.
                  unfold add_rule in guarded-fresh _ _ rule.check rule.reason_code was out h)
                rules [] seen b tt in
            let (s2, d2, multi_good) =
              add_all-Distinct add_multi_rule (λ rule. rule.reason_code)
                (λ rule. HasCheck rule.check)
                (λ rule was out h.
                  unfold add_multi_rule in guarded-fresh _ _ rule.check rule.reason_code was out h)
                multi_rules seen all c d1 in
            let same : whole ≡ r = inr_inj (sym (ap (made whole) c) ∙ next) in
            record {
              made_of = sym same;
              distinct = rw (← s1, ← s2) d2;
              checks = good;
              multi_checks = multi_good;
            }
      ]
]
  where
    whole : Registry
    whole = record { rules = rules; multi_rules = multi_rules }

    inr_inj : {a b : Registry} → ◌≡◌ {A = Misconfigured ⊎ Registry} (inr a) (inr b) → a ≡ b
    inr_inj h = cc
