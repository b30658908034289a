-- ===== src/Version/Registry/Ranges.antt =====
-- The status of a feature as a position in its version range.
use sql_ai_tools.Prelude.{
  ℕ, ◌<◌, ◌≤◌, ◌≡◌, ◌⊎◌, true, false, List, [], ◌∷◌, none, some, Bytes, arith, inl, inr, Bool-cases,
}
use sql_ai_tools.Text.{bytes_eq}
use sql_ai_tools.Version.Registry.{
  Feature, Registry, built, Status, unknown, supported, not_yet_introduced, removed_since,
  zero_feature, is_empty, parse_major_minor, compare_parsed, compare_major_minor, is_negative,
  lookup, predates, outlives, status_of, supports_feature, supports, new_registry,
}
use sql_ai_tools.Version.Registry.WellFormed.{
  Before, IsConfigured, IsWellFormed, new_registry-IsWellFormed,
}

-- One release is not before another.
abbrev pub Reached : ℕ × ℕ → ℕ × ℕ → Type 0
Reached a b = (b.0 < a.0) ⊎ ((a.0 ≡ b.0) × (b.1 ≤ a.1))

-- What a status says of the release `t`, by the feature's versions.
abbrev pub HasStatus : ℕ × ℕ → Feature → Status → Type 0
HasStatus t f unknown = ⊥
HasStatus t f not_yet_introduced =
    (v : ℕ × ℕ) × ((parse_major_minor f.introduced ≡ some v) × Before t v)
HasStatus t f removed_since = (w : ℕ × ℕ) × ((parse_major_minor f.removed ≡ some w) × Reached t w)
HasStatus t f supported =
    ((is_empty f.introduced ≡ true)
      ⊎ ((v : ℕ × ℕ) × ((parse_major_minor f.introduced ≡ some v) × Reached t v)))
    × ((is_empty f.removed ≡ true)
        ⊎ ((w : ℕ × ℕ) × ((parse_major_minor f.removed ≡ some w) × Before t w)))

compare_negative :
    (a b : ℕ × ℕ)
    → ((is_negative (compare_parsed a b) ≡ true) → Before a b)
      × ((is_negative (compare_parsed a b) ≡ false) → Reached a b)
unfolding is_negative compare_parsed
compare_negative a b = (λ h. ground arith, λ h. ground arith)

pub lookup-IsConfigured :
    (r : Registry) (tag : Bytes) (f : Feature)
    → IsWellFormed r
    → lookup r tag ≡ some f
    → IsConfigured f
unfolding lookup
lookup-IsConfigured [] tag f wf e = absurd (ground (arith, e))
lookup-IsConfigured (g ∷ r) tag f wf e = elim (Bool-cases (bytes_eq g.tag tag)) [
  | inl b ↦ let same : g ≡ f = ground (arith, b, e) in rw (← same) wf.0
  | inr b ↦ lookup-IsConfigured r tag f wf.2 (ground (arith, b, e))
]

module _ (target : Bytes) (t : ℕ × ℕ) (f : Feature) (read : parse_major_minor target ≡ some t) where
  compared :
      (text : Bytes) (v : ℕ × ℕ)
      → parse_major_minor text ≡ some v
      → compare_major_minor target text ≡ some (compare_parsed t v)
  unfolding compare_major_minor
  compared text v e = rw (read, e)

  predates-cases :
      IsConfigured f
      → ((predates target f ≡ some true) × HasStatus t f not_yet_introduced)
        ⊎ ((predates target f ≡ some false)
            × ((is_empty f.introduced ≡ true)
                ⊎ ((v : ℕ × ℕ) × ((parse_major_minor f.introduced ≡ some v) × Reached t v))))
  unfolding predates
  predates-cases c = elim c.dated [
    | inl e ↦ inr (rw e, inl e)
    | inr (set, (v, e)) ↦ elim (Bool-cases (is_negative (compare_parsed t v))) [
      | inl b ↦ inl (rw (set, compared f.introduced v e, b), (v, (e, (compare_negative t v).0 b)))
      | inr b ↦
          inr (rw (set, compared f.introduced v e, b), inr (v, (e, (compare_negative t v).1 b)))
    ]
  ]

  outlives-cases :
      IsConfigured f
      → ((outlives target f ≡ some true) × HasStatus t f removed_since)
        ⊎ ((outlives target f ≡ some false)
            × ((is_empty f.removed ≡ true)
                ⊎ ((w : ℕ × ℕ) × ((parse_major_minor f.removed ≡ some w) × Before t w))))
  unfolding outlives
  outlives-cases c = elim (Bool-cases (is_empty f.removed)) [
    | inl e ↦ inr (rw e, inl e)
    | inr set ↦ elim c.ended [
      | inl e ↦ absurd (ground (arith, e, set))
      | inr (v, w, facts) ↦ elim (Bool-cases (is_negative (compare_parsed t w))) [
        | inl b ↦ inr (
          rw (set, compared f.removed w facts.1, b),
          inr (w, (facts.1, (compare_negative t w).0 b)),
        )
        | inr b ↦
            inl (
              rw (set, compared f.removed w facts.1, b),
              (w, (facts.1, (compare_negative t w).1 b)),
            )
      ]
    ]
  ]

  status_of-HasStatus :
      IsConfigured f → (s : Status) × ((status_of target f ≡ some s) × HasStatus t f s)
  unfolding status_of
  status_of-HasStatus c = elim (predates-cases c) [
    | inl (e, early) ↦ (not_yet_introduced, (rw e, early))
    | inr (e, here) ↦ elim (outlives-cases c) [
      | inl (e', gone) ↦ (removed_since, (rw (e, e'), gone))
      | inr (e', still) ↦ (supported, (rw (e, e'), (here, still)))
    ]
  ]

-- The same for any well-formed registry.
pub well_formed-HasStatus :
    (r : Registry) (target tag : Bytes) (t : ℕ × ℕ) (f : Feature)
    → IsWellFormed r
    → parse_major_minor target ≡ some t
    → lookup r tag ≡ some f
    → (s : Status) × ((supports r target tag ≡ some (s, f)) × HasStatus t f s)
unfolding supports supports_feature
well_formed-HasStatus r target tag t f wf read found =
    let (s, (e, holds)) =
      status_of-HasStatus target t f read (lookup-IsConfigured r tag f wf found) in
    (s, (rw (found, read, e), holds))

-- A tag that is not registered has no status.
pub unregistered-unknown :
    (r : Registry) (target tag : Bytes)
    → lookup r tag ≡ none
    → supports r target tag ≡ some (unknown, zero_feature)
unfolding supports supports_feature
unregistered-unknown r target tag e = rw e

-- In a registry that `NewRegistry` returned, `Supports` never panics on a readable target, and for a
-- registered tag it returns the entry with the status that places the target in its version range:
-- before it was introduced, since it was removed, or in between, a missing bound being no bound.
pub supports-HasStatus :
    (features : List Feature) (r : Registry) (target tag : Bytes) (t : ℕ × ℕ) (f : Feature)
    → new_registry features ≡ built r
    → parse_major_minor target ≡ some t
    → lookup r tag ≡ some f
    → (s : Status) × ((supports r target tag ≡ some (s, f)) × HasStatus t f s)
supports-HasStatus features r target tag t f made read found =
    well_formed-HasStatus r target tag t f (new_registry-IsWellFormed features r made) read found
