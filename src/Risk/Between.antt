-- ===== src/Risk/Between.antt =====
-- The slice of the statements that the rules about explicit transactions take.
use sql_ai_tools.Prelude.{
  ℕ, zero, suc, ◌+◌, ◌-◌, ◌≤◌, ◌≡◌, refl, sym, ◌∙◌, ◌&&◌, List, [], ◌∷◌, arith, ltb, take, drop,
  if◌then◌else◌,
}
use sql_ai_tools.Position.{Position}
use sql_ai_tools.Risk.Tree.{Statement}
use sql_ai_tools.Risk.Txn.{inner}

-- The statements, counted from `i` on, whose index lies strictly between two others.
pub between : ℕ → ℕ → ℕ → List Statement → List Position → List (Statement × Position)
between low high i [] positions = []
between low high i (s ∷ stmts) [] = []
between low high i (s ∷ stmts) (p ∷ positions) =
    let rest = between low high (suc i) stmts positions in
    if ltb low i && ltb i high then (s, p) ∷ rest else rest

between-none :
    (low high i : ℕ) (stmts : List Statement) (positions : List Position)
    → high ≤ i
    → between low high i stmts positions ≡ []
unfolding between
between-none low high i [] positions h = refl
between-none low high i (s ∷ stmts) [] h = refl
between-none low high i (s ∷ stmts) (p ∷ positions) h =
    ground (arith, h, between-none low high (suc i) stmts positions (omega (arith, h)))

take-nil : {A : Type 0} (n : ℕ) → ◌≡◌ {A = List A} (take n []) []
take-nil zero = refl
take-nil (suc n) = refl

drop-nil : {A : Type 0} (n : ℕ) → ◌≡◌ {A = List A} (drop n []) []
drop-nil zero = refl
drop-nil (suc n) = refl

minus_zero : (n : ℕ) → n - 0 ≡ n
minus_zero n = omega arith

minus_suc : (n k : ℕ) → suc n - suc k ≡ n - k
minus_suc n k = omega arith

zero_minus : (k : ℕ) → 0 - k ≡ 0
zero_minus k = omega arith

module _ (positions : List Position) where
  inner-nil : (start n : ℕ) → inner start n [] positions ≡ []
  unfolding inner
  inner-nil start n = rw (drop-nil start, take-nil (n - start)) refl

  inner-bare :
      (start n : ℕ) (s : Statement) (stmts : List Statement) → inner start n (s ∷ stmts) [] ≡ []
  unfolding inner
  inner-bare start n s stmts = rw (drop-nil start, take-nil (n - start)) refl

  inner-over : (start : ℕ) (stmts : List Statement) → inner start 0 stmts positions ≡ []
  unfolding inner
  inner-over start stmts = rw (zero_minus start) refl

  module _ (n : ℕ) (s : Statement) (p : Position) (stmts : List Statement) where
    inner-take : inner 0 (suc n) (s ∷ stmts) (p ∷ positions) ≡ (s, p) ∷ inner 0 n stmts positions
    unfolding inner
    inner-take = rw (minus_zero (suc n), minus_zero n) refl

    inner-skip :
        (start : ℕ)
        → inner (suc start) (suc n) (s ∷ stmts) (p ∷ positions) ≡ inner start n stmts positions
    unfolding inner
    inner-skip start = rw (minus_suc n start) refl

inner-from :
    (low high i n : ℕ) (stmts : List Statement) (positions : List Position)
    → suc low ≤ i
    → n + i ≡ high
    → inner 0 n stmts positions ≡ between low high i stmts positions
unfolding between
inner-from low high i zero stmts positions h e =
    inner-over positions 0 stmts ∙ sym (between-none low high i stmts positions (omega (arith, e)))
inner-from low high i (suc n) [] positions h e = inner-nil positions 0 (suc n)
inner-from low high i (suc n) (s ∷ stmts) [] h e = inner-bare [] 0 (suc n) s stmts
inner-from low high i (suc n) (s ∷ stmts) (p ∷ positions) h e =
    let ih = inner-from low high (suc i) n stmts positions (omega (arith, h)) (omega (arith, e)) in
    inner-take positions n s p stmts ∙ ground (arith, h, e, ih)

-- The slice that the rules take is the statements between the two.
pub inner-between :
    (low high i start n : ℕ) (stmts : List Statement) (positions : List Position)
    → start + i ≡ suc low
    → n + i ≡ high
    → inner start n stmts positions ≡ between low high i stmts positions
unfolding between
inner-between low high i zero n stmts positions h e =
    inner-from low high i n stmts positions (omega (arith, h)) e
inner-between low high i (suc start) zero stmts positions h e =
    inner-over positions (suc start) stmts
    ∙ sym (between-none low high i stmts positions (omega (arith, e)))
inner-between low high i (suc start) (suc n) [] positions h e =
    inner-nil positions (suc start) (suc n)
inner-between low high i (suc start) (suc n) (s ∷ stmts) [] h e =
    inner-bare [] (suc start) (suc n) s stmts
inner-between low high i (suc start) (suc n) (s ∷ stmts) (p ∷ positions) h e =
    let ih =
      inner-between low high (suc i) start n stmts positions (omega (arith, h))
        (omega (arith, e)) in
    inner-skip positions n s p stmts start ∙ ground (arith, h, e, ih)
