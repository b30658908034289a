-- ===== src/Suggest/Promise.antt =====
-- What a caller of `Suggest` is promised.
use mathlib.Core.List.{Memᴰ}
use sql_ai_tools.Prelude.{
  ℕ, zero, suc, ◌+◌, ◌≤◌, ◌≡◌, refl, ap, false, ◌||◌, ◌==◌, List, [], ◌∷◌, some, Bytes, arith, map,
  length, take, length-take, All, Bool-cases, inl, inr,
}
use sql_ai_tools.Position.{Position}
use sql_ai_tools.Suggest.{
  Scored, Suggestion, is_empty, to_lower, equal_fold, levenshtein, scored, sort_hits,
  suggestions_of, suggest_with_distance, max_distance, suggest,
}
use sql_ai_tools.Suggest.Ranking.{IsHit, scored-IsHit, Rising, sort_hits-All, sort_hits-Rising}

-- One suggestion: a candidate within the limit, with its true distance, over the range of the text.
pub record IsSuggested (misspelled : Bytes) (candidates : List Bytes) (start : ℕ) (s : Suggestion)
    : Type 0 where
  pub listed : Memᴰ s.replacement candidates
  pub differs : equal_fold s.replacement misspelled ≡ false
  pub measured : s.distance ≡ levenshtein (to_lower misspelled) (to_lower s.replacement)
  pub within : s.distance ≤ max_distance (length misspelled)
  pub starts : s.range_start ≡ start
  pub ends : s.range_end ≡ start + length misspelled

All-take : {A : Type 0} → (P : A → Type 0) → (n : ℕ) → (xs : List A) → All P xs → All P (take n xs)
All-take P zero xs a = tt
All-take P (suc n) [] a = tt
All-take P (suc n) (x ∷ xs) a = (a.0, All-take P n xs a.1)

Rising-take :
    (n : ℕ) (hs : List Scored)
    → Rising (map (λ s. s.distance) hs)
    → Rising (map (λ s. s.distance) (take n hs))
Rising-take zero hs r = tt
Rising-take (suc n) [] r = tt
Rising-take (suc zero) (h ∷ []) r = tt
Rising-take (suc (suc n)) (h ∷ []) r = tt
Rising-take (suc zero) (h ∷ k ∷ hs) r = tt
Rising-take (suc (suc n)) (h ∷ k ∷ hs) r = (r.0, Rising-take (suc n) (k ∷ hs) r.1)

module _ (misspelled reason : Bytes) (start : ℕ) where
  distance-suggestions_of :
      (hs : List Scored)
      → map (λ s. s.distance) (suggestions_of misspelled reason start hs) ≡ map (λ s. s.distance) hs
  unfolding suggestions_of
  distance-suggestions_of [] = refl
  distance-suggestions_of (h ∷ hs) = ap (λ l. h.distance ∷ l) (distance-suggestions_of hs)

  length-suggestions_of :
      (hs : List Scored) → length (suggestions_of misspelled reason start hs) ≡ length hs
  unfolding suggestions_of
  length-suggestions_of [] = refl
  length-suggestions_of (h ∷ hs) = ap suc (length-suggestions_of hs)

  suggestions_of-IsSuggested :
      (cands : List Bytes) (hs : List Scored)
      → All (IsHit misspelled cands (max_distance (length misspelled))) hs
      → All (IsSuggested misspelled cands start) (suggestions_of misspelled reason start hs)
  unfolding suggestions_of
  suggestions_of-IsSuggested cands [] a = tt
  suggestions_of-IsSuggested cands (h ∷ hs) a = (
    record {
      listed = a.0.listed;
      differs = a.0.differs;
      measured = a.0.measured;
      within = a.0.within;
      starts = refl;
      ends = refl;
    },
    suggestions_of-IsSuggested cands hs a.1,
  )

-- Whatever the candidates, at most three suggestions come back, nearest first, and each is a candidate
-- that differs from the text by more than case, within the distance limit for the text's length, with
-- its exact distance and the range the text has in the input.
pub suggest_promise :
    (misspelled : Bytes) (cands : List Bytes) (p : Position)
    → All (IsSuggested misspelled cands p.byte_offset) (suggest misspelled cands (some p))
      × (length (suggest misspelled cands (some p)) ≤ 3)
      × Rising (map (λ s. s.distance) (suggest misspelled cands (some p)))
unfolding suggest suggest_with_distance
suggest_promise misspelled cands p =
    elim (Bool-cases (is_empty misspelled || max_distance (length misspelled) == 0)) [
      | inl e ↦ rw e (tt, omega arith, tt)
      | inr e ↦ rw e (
        suggestions_of-IsSuggested misspelled _ p.byte_offset cands (take 3 hits) (
            All-take _ 3 hits
              (sort_hits-All misspelled false _ _ (scored-IsHit misspelled limit cands))),
        rw (length-suggestions_of misspelled _ p.byte_offset (take 3 hits))
            (omega (arith, length-take 3 hits)),
        rw (distance-suggestions_of misspelled _ p.byte_offset (take 3 hits))
            (Rising-take 3 hits (sort_hits-Rising misspelled false _)),
      )
    ]
  where
    limit : ℕ
    limit = max_distance (length misspelled)

    hits : List Scored
    hits = sort_hits misspelled false (scored levenshtein misspelled limit cands)
