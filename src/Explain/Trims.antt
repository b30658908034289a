-- ===== src/Explain/Trims.antt =====
-- What trimming leaves of a row of explain_parse.go.
use sql_ai_tools.Prelude.{
  ℕ, ◌≡◌, ◌≢◌, inl, inr, refl, false, [], ◌∷◌, ◌++◌, Bytes, arith, Bool-cases,
}
use sql_ai_tools.Text.{trim_left, trim_right, is_space}
use sql_ai_tools.Explain.{trim_blank}

pub right-cons : (x : ℕ) (t : Bytes) → t ≢ [] → trim_right t ≡ t → trim_right (x ∷ t) ≡ x ∷ t
unfolding trim_right
right-cons x [] ne h = absurd (ne refl)
right-cons x (d ∷ t) ne h = ground (arith, h)

pub blank-cons : (x : ℕ) (t : Bytes) → t ≢ [] → trim_blank t ≡ t → trim_blank (x ∷ t) ≡ x ∷ t
unfolding trim_blank
blank-cons x [] ne h = absurd (ne refl)
blank-cons x (d ∷ t) ne h = ground (arith, h)

pub not_empty : (xs s : Bytes) → s ≢ [] → xs ++ s ≢ []
not_empty [] s ne e = ne e
not_empty (x ∷ xs) s ne e = cc

pub right-append : (xs s : Bytes) → s ≢ [] → trim_right s ≡ s → trim_right (xs ++ s) ≡ xs ++ s
right-append [] s ne h = h
right-append (x ∷ xs) s ne h = right-cons x (xs ++ s) (not_empty xs s ne) (right-append xs s ne h)

pub blank-append : (xs s : Bytes) → s ≢ [] → trim_blank s ≡ s → trim_blank (xs ++ s) ≡ xs ++ s
blank-append [] s ne h = h
blank-append (x ∷ xs) s ne h = blank-cons x (xs ++ s) (not_empty xs s ne) (blank-append xs s ne h)

pub right-tail :
    (c d : ℕ) (t : Bytes) → trim_right (c ∷ d ∷ t) ≡ c ∷ d ∷ t → trim_right (d ∷ t) ≡ d ∷ t
unfolding trim_right
right-tail c d t h = ground (arith, h)

-- What `TrimSpace` leaves on the right `TrimRight` of blanks leaves too.
pub blank-right : (s : Bytes) → trim_right s ≡ s → trim_blank s ≡ s
unfolding trim_blank trim_right is_space
blank-right [] h = refl
blank-right (c ∷ []) h = ground (arith, h)
blank-right (c ∷ d ∷ t) h =
    blank-cons c (d ∷ t) (λ e. cc) (blank-right (d ∷ t) (right-tail c d t h))

pub left-append :
    (xs w : Bytes) → trim_left w ≡ w → (pre : Bytes) × (trim_left (xs ++ w) ≡ pre ++ w)
unfolding trim_left
left-append [] w h = ([], h)
left-append (x ∷ xs) w h = elim (Bool-cases (is_space x)) [
  | inl b ↦ let (pre, e) = left-append xs w h in (pre, rw b e)
  | inr b ↦ (x ∷ xs, rw b refl)
]

pub left-first : (c : ℕ) (s : Bytes) → is_space c ≡ false → trim_left (c ∷ s) ≡ c ∷ s
unfolding trim_left
left-first c s h = rw h refl

pub left-space : (s : Bytes) → trim_left (32 ∷ s) ≡ trim_left s
unfolding trim_left is_space
left-space s = refl
