-- ===== src/Suggest/Ranking.antt =====
-- Which candidates are suggested, and in which order.
use mathlib.Core.List.{Memᴰ}
use sql_ai_tools.Prelude.{
  ℕ, suc, ◌≤◌, ◌≡◌, ◌↔◌, ◌⊎◌, refl, ap, Bool, true, false, List, [], ◌∷◌, Option, none, some, Bytes,
  arith, map, length, All, Bool-cases, inl, inr,
}
use sql_ai_tools.Suggest.{
  Scored, is_empty, to_lower, equal_fold, abs_diff, levenshtein, score, add_hit, scored, before,
  insert_hit, sort_hits,
}
use sql_ai_tools.Suggest.Distance.{levenshtein_metric}

length-to_lower : (s : Bytes) → length (to_lower s) ≡ length s
unfolding to_lower
length-to_lower [] = refl
length-to_lower (c ∷ s) = ap suc (length-to_lower s)

abs_diff_comm : (a b : ℕ) → abs_diff a b ≡ abs_diff b a
unfolding abs_diff
abs_diff_comm a b = ground arith

-- The filter on lengths saves work and drops nothing: with the Levenshtein distance a candidate is
-- kept exactly when it is not empty, is not the misspelled text up to case, and is within the limit.
score_iff :
    (misspelled cand : Bytes) (limit : ℕ) (h : Scored)
    → (score levenshtein misspelled limit cand ≡ some h) ↔ (
        (is_empty cand ≡ false)
        × (equal_fold cand misspelled ≡ false)
        × (h ≡ record { name = cand; distance = levenshtein (to_lower misspelled) (to_lower cand) })
        × (levenshtein (to_lower misspelled) (to_lower cand) ≤ limit))
unfolding score
score_iff misspelled cand limit h = (λ e. ground arith, λ e. kept e)
  where
    near :
        abs_diff (length cand) (length misspelled)
        ≤ levenshtein (to_lower misspelled) (to_lower cand)
    near = omega (
      arith,
      (levenshtein_metric (to_lower misspelled) (to_lower cand)).2,
      ap (λ n. abs_diff n (length (to_lower cand))) (length-to_lower misspelled),
      ap (λ n. abs_diff (length misspelled) n) (length-to_lower cand),
      abs_diff_comm (length misspelled) (length cand),
    )

    kept :
        (is_empty cand ≡ false)
          × (equal_fold cand misspelled ≡ false)
          × (h ≡ record {
            name = cand;
            distance = levenshtein (to_lower misspelled) (to_lower cand);
          })
          × (levenshtein (to_lower misspelled) (to_lower cand) ≤ limit)
        → score levenshtein misspelled limit cand ≡ some h
    kept e = ground (arith, near)

-- A candidate that the loop keeps.
pub record IsHit (misspelled : Bytes) (candidates : List Bytes) (limit : ℕ) (h : Scored)
    : Type 0 where
  pub listed : Memᴰ h.name candidates
  pub differs : equal_fold h.name misspelled ≡ false
  pub measured : h.distance ≡ levenshtein (to_lower misspelled) (to_lower h.name)
  pub within : h.distance ≤ limit

module _ (misspelled : Bytes) (limit : ℕ) where
  IsHit-tail :
      (c : Bytes) (cs : List Bytes) (hs : List Scored)
      → All (IsHit misspelled cs limit) hs
      → All (IsHit misspelled (c ∷ cs) limit) hs
  IsHit-tail c cs [] a = tt
  IsHit-tail c cs (h ∷ hs) a = (
    record {
      listed = Memᴰ.tail a.0.listed;
      differs = a.0.differs;
      measured = a.0.measured;
      within = a.0.within;
    },
    IsHit-tail c cs hs a.1,
  )

  score-IsHit :
      (c : Bytes) (cs : List Bytes) (h : Scored)
      → score levenshtein misspelled limit c ≡ some h
      → IsHit misspelled (c ∷ cs) limit h
  score-IsHit c cs h e =
      let facts = (score_iff misspelled c limit h).0 e in
      record {
        listed = Memᴰ.head (ap (λ s. s.name) facts.2);
        differs = rw (facts.2) (facts.1);
        measured = rw (facts.2) refl;
        within = rw (facts.2) (facts.3);
      }

  pub scored-IsHit :
      (cands : List Bytes)
      → All (IsHit misspelled cands limit) (scored levenshtein misspelled limit cands)
  unfolding scored
  scored-IsHit [] = tt
  scored-IsHit (c ∷ cs) =
      added (score levenshtein misspelled limit c) (score-IsHit c cs)
        (IsHit-tail c cs (scored levenshtein misspelled limit cs) (scored-IsHit cs))
    where
      added :
          (o : Option Scored)
          → ((h : Scored) → o ≡ some h → IsHit misspelled (c ∷ cs) limit h)
          → All (IsHit misspelled (c ∷ cs) limit) (scored levenshtein misspelled limit cs)
          → All
              (IsHit misspelled (c ∷ cs) limit)
              (add_hit levenshtein misspelled limit o (scored levenshtein misspelled limit cs))
      added none f a = unfold add_hit in a
      added (some h) f a = unfold add_hit in (f h refl, a)

-- Distances do not fall along the list.
abbrev pub Rising : List ℕ → Type 0
Rising [] = Unit
Rising (a ∷ []) = Unit
Rising (a ∷ b ∷ rest) = (a ≤ b) × Rising (b ∷ rest)

module _ (misspelled : Bytes) (same : Bool) where
  module _ (P : Scored → Type 0) where
    insert_hit-All :
        (h : Scored) (xs : List Scored) → P h → All P xs → All P (insert_hit misspelled same h xs)
    unfolding insert_hit
    insert_hit-All h [] p a = (p, tt)
    insert_hit-All h (x ∷ xs) p a = elim (Bool-cases (before misspelled same x h)) [
      | inl e ↦ rw e (a.0, insert_hit-All h xs p a.1)
      | inr e ↦ rw e (p, a)
    ]

    pub sort_hits-All : (hs : List Scored) → All P hs → All P (sort_hits misspelled same hs)
    unfolding sort_hits
    sort_hits-All [] a = tt
    sort_hits-All (h ∷ hs) a =
        insert_hit-All h (sort_hits misspelled same hs) a.0 (sort_hits-All hs a.1)

  before-distance :
      (x h : Scored)
      → ((before misspelled same x h ≡ true) → x.distance ≤ h.distance)
        × ((before misspelled same x h ≡ false) → h.distance ≤ x.distance)
  unfolding before
  before-distance x h = (λ e. ground arith, λ e. ground arith)

  insert_hit-Rising :
      (h : Scored) (xs : List Scored)
      → Rising (map (λ s. s.distance) xs)
      → Rising (map (λ s. s.distance) (insert_hit misspelled same h xs))
  unfolding insert_hit
  insert_hit-Rising h [] r = tt
  insert_hit-Rising h (x ∷ []) r = elim (Bool-cases (before misspelled same x h)) [
    | inl e ↦ rw e ((before-distance x h).0 e, tt)
    | inr e ↦ rw e ((before-distance x h).1 e, tt)
  ]
  insert_hit-Rising h (x ∷ y ∷ xs) r =
      by_tests (insert_hit-Rising h (y ∷ xs) r.1) (Bool-cases (before misspelled same x h))
        (Bool-cases (before misspelled same y h))
    where
      by_tests :
          Rising (map (λ s. s.distance) (insert_hit misspelled same h (y ∷ xs)))
          → (before misspelled same x h ≡ true) ⊎ (before misspelled same x h ≡ false)
          → (before misspelled same y h ≡ true) ⊎ (before misspelled same y h ≡ false)
          → Rising (map (λ s. s.distance) (insert_hit misspelled same h (x ∷ y ∷ xs)))
      by_tests ih (inl e) (inl e') = rw (e, e') (ground (arith, r, ih))
      by_tests ih (inl e) (inr e') =
          rw (e, e') (ground (arith, r, ih, (before-distance x h).0 e, ih))
      by_tests ih (inr e) c = rw e ((before-distance x h).1 e, r)

  pub sort_hits-Rising :
      (hs : List Scored) → Rising (map (λ s. s.distance) (sort_hits misspelled same hs))
  unfolding sort_hits
  sort_hits-Rising [] = tt
  sort_hits-Rising (h ∷ hs) =
      insert_hit-Rising h (sort_hits misspelled same hs) (sort_hits-Rising hs)
