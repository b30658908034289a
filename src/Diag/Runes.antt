-- ===== src/Diag/Runes.antt =====
-- Where error.go finds the token and the character of an error.
use sql_ai_tools.Prelude.{
  ℕ, zero, suc, ◌+◌, ◌-◌, ◌≡◌, ◌≢◌, refl, ap, ◌∙◌, true, false, List, [], ◌∷◌, ◌++◌, none, some,
  Bytes, length, length-append, take, arith, All, ◌≤◌, ◌⊎◌, ◌↔◌, Bool-cases, inl, inr,
}
use sql_ai_tools.Text.Laws.{drop-length-append}
use sql_ai_tools.Position.{Position, position_at, position_from_byte_offset}
use sql_ai_tools.Diag.{
  is_ident_start, is_ident_cont, ident_run, ident_from, identifier_at, width, walk,
  char_index_to_byte_offset, ServerError, server_error, cluster_position, from_cluster_error,
}

-- The bytes of one code point, whatever stands behind them.
abbrev pub IsRune : Bytes → Type 0
IsRune [] = ⊥
IsRune (c ∷ t) = (rest : Bytes) → width c (t ++ rest) ≡ suc (length t)

abbrev pub concat : List Bytes → Bytes
concat [] = []
concat (r ∷ rs) = r ++ concat rs

walk-skip : (t s : Bytes) (n : ℕ) → walk (length t) n (t ++ s) ≡ length t + walk 0 n s
unfolding walk
walk-skip [] s n = omega arith
walk-skip (c ∷ t) s n = omega (arith, walk-skip t s n)

walk-concat :
    (rs : List Bytes) (n : ℕ) → All IsRune rs → walk 0 n (concat rs) ≡ length (concat (take n rs))
unfolding walk
walk-concat [] zero h = refl
walk-concat [] (suc n) h = refl
walk-concat ([] ∷ rs) n h = absurd h.0
walk-concat ((c ∷ t) ∷ rs) zero h = refl
walk-concat ((c ∷ t) ∷ rs) (suc n) h =
    let less : width c (t ++ concat rs) - 1 ≡ length t = omega (arith, h.0 (concat rs)) in
    let ih = walk-concat rs n h.1 in
    let both = length-append t (concat (take n rs)) in
    rw less (omega (arith, walk-skip t (concat rs) n, ih, both))

nonempty-position :
    (sql : Bytes) (n : ℕ)
    → sql ≢ []
    → cluster_position sql (suc n) ≡ some (position_at sql (walk 0 n sql))
unfolding cluster_position position_from_byte_offset char_index_to_byte_offset
nonempty-position [] n h = absurd (h refl)
nonempty-position (c ∷ sql) n h = refl

-- For a text of whole code points, the position of a cluster's error is that of the code point that
-- the server counts, from 1 on: the bytes of those before it are its offset, and past the last one it
-- is the end of the text. Without a position of the server there is none.
pub cluster_position-rune :
    (rs : List Bytes) (e : ServerError) (n : ℕ)
    → All IsRune rs
    → concat rs ≢ []
    → (e.position ≡ suc n
        → (from_cluster_error (server_error e) (concat rs)).position
          ≡ some (position_at (concat rs) (length (concat (take n rs)))))
      × (e.position ≡ 0 → (from_cluster_error (server_error e) (concat rs)).position ≡ none)
unfolding from_cluster_error cluster_position
cluster_position-rune rs e n h ne = (
  λ at. rw at (
      nonempty-position (concat rs) n ne
      ∙ ap (λ k. some (position_at (concat rs) k)) (walk-concat rs n h)),
  λ at. rw at (no_position (concat rs)),
)
  where
    no_position : (sql : Bytes) → cluster_position sql 0 ≡ none
    no_position [] = refl
    no_position (c ∷ sql) = refl

-- A letter of ASCII or the underscore.
abbrev pub IsLetter : ℕ → Type 0
IsLetter c = ((65 ≤ c) × (c ≤ 90)) ⊎ ((97 ≤ c) × (c ≤ 122)) ⊎ (c ≡ 95)

-- One of these, or a digit.
abbrev pub IsWordByte : ℕ → Type 0
IsWordByte c = IsLetter c ⊎ ((48 ≤ c) × (c ≤ 57))

-- A text that no identifier goes on into.
abbrev pub Stops : Bytes → Type 0
Stops [] = Unit
Stops (c ∷ s) = ¬ IsWordByte c

start_iff : (c : ℕ) → (is_ident_start c ≡ true) ↔ IsLetter c
unfolding is_ident_start
start_iff c = (λ h. ground (arith, h), λ h. ground (arith, h))

cont_iff : (c : ℕ) → (is_ident_cont c ≡ true) ↔ IsWordByte c
unfolding is_ident_cont is_ident_start
cont_iff c = (λ h. ground (arith, h), λ h. ground (arith, h))

stopped : (c : ℕ) → (¬ IsWordByte c) → is_ident_cont c ≡ false
stopped c h = elim (Bool-cases (is_ident_cont c)) [
  | inl b ↦ absurd (h ((cont_iff c).0 b))
  | inr b ↦ b
]

ident_run-Stops : (t rest : Bytes) → All IsWordByte t → Stops rest → ident_run (t ++ rest) ≡ t
unfolding ident_run
ident_run-Stops [] [] h stop = refl
ident_run-Stops [] (c ∷ rest) h stop = rw (stopped c stop) refl
ident_run-Stops (c ∷ t) rest h stop = rw ((cont_iff c).1 h.0, ident_run-Stops t rest h.1 stop) refl

unstarted : (c : ℕ) → (¬ IsLetter c) → is_ident_start c ≡ false
unstarted c h = elim (Bool-cases (is_ident_start c)) [
  | inl b ↦ absurd (h ((start_iff c).0 b))
  | inr b ↦ b
]

-- The token at a position is the longest run of letters, underscores and digits that begins there, where
-- it begins with a letter or an underscore, and is empty where another byte stands there.
pub identifier_at-token :
    (pre : Bytes) (c : ℕ) (t rest : Bytes) (p : Position)
    → p.byte_offset ≡ length pre
    → All IsWordByte t
    → Stops rest
    → (IsLetter c → identifier_at (pre ++ c ∷ (t ++ rest)) (some p) ≡ c ∷ t)
      × ((¬ IsLetter c) → identifier_at (pre ++ c ∷ (t ++ rest)) (some p) ≡ [])
unfolding identifier_at ident_from
identifier_at-token pre c t rest p at h stop = (
  λ b.
      rw
        (
          at,
          drop-length-append pre (c ∷ (t ++ rest)),
          (start_iff c).1 b,
          ident_run-Stops t rest h stop,
        )
        refl,
  λ b. rw (at, drop-length-append pre (c ∷ (t ++ rest)), unstarted c b) refl,
)
