-- ===== src/Version/Registry/WellFormed.antt =====
-- What `NewRegistry` lets in.
use sql_ai_tools.Prelude.{
  ℕ, ◌<◌, ◌≡◌, ◌⊎◌, refl, true, false, List, [], ◌∷◌, Option, none, some, Bytes, arith, inl, inr,
  Bool-cases, Option-cases,
}
use sql_ai_tools.Version.Registry.{
  Feature, Registry, built, is_empty, parse_major_minor, compare_parsed, compare_major_minor,
  is_positive, lookup, is_registered, is_version, is_after, misconfigured, add_features,
  new_registry,
}

-- One release precedes another: by the major number, then by the minor.
abbrev pub Before : ℕ × ℕ → ℕ × ℕ → Type 0
Before a b = (a.0 < b.0) ⊎ ((a.0 ≡ b.0) × (a.1 < b.1))

-- A feature that may be registered: named, its versions read, and removed only after it came.
pub record IsConfigured (f : Feature) : Type 0 where
  pub tagged : is_empty f.tag ≡ false
  pub named : is_empty f.name ≡ false
  pub dated :
      (is_empty f.introduced ≡ true)
      ⊎ ((is_empty f.introduced ≡ false)
          × ((v : ℕ × ℕ) × (parse_major_minor f.introduced ≡ some v)))
  pub ended :
      (is_empty f.removed ≡ true)
      ⊎ ((v : ℕ × ℕ) × (w : ℕ × ℕ) × ((parse_major_minor f.introduced ≡ some v)
            × (parse_major_minor f.removed ≡ some w)
            × Before v w))

-- Every feature may be registered, and no later entry has its tag.
abbrev pub IsWellFormed : Registry → Type 0
IsWellFormed [] = Unit
IsWellFormed (f ∷ fs) = IsConfigured f × (lookup fs f.tag ≡ none) × IsWellFormed fs

positive-Before : (v w : ℕ × ℕ) → is_positive (compare_parsed w v) ≡ true → Before v w
unfolding is_positive compare_parsed
positive-Before v w h = ground arith

unregistered : (o : Option Feature) → is_registered o ≡ false → o ≡ none
unfolding is_registered
unregistered none h = refl
unregistered (some f) h = absurd (ground arith)

version_read : (o : Option (ℕ × ℕ)) → is_version o ≡ true → (v : ℕ × ℕ) × (o ≡ some v)
unfolding is_version
version_read none h = absurd (ground arith)
version_read (some v) h = (v, refl)

after-Before :
    (removed introduced : Bytes)
    → is_after (compare_major_minor removed introduced) ≡ true
    → (v : ℕ × ℕ) × (w : ℕ × ℕ) × ((parse_major_minor introduced ≡ some v)
        × (parse_major_minor removed ≡ some w)
        × Before v w)
unfolding is_after compare_major_minor
after-Before removed introduced h = elim (Option-cases (parse_major_minor removed)) [
  | inl e ↦ absurd (ground (arith, e, h))
  | inr e ↦ elim (Option-cases (parse_major_minor introduced)) [
    | inl e' ↦ absurd (ground (arith, e.1, e', h))
    | inr e' ↦ (e'.0, e.0, (e'.1, e.1, positive-Before e'.0 e.0 (ground (arith, e.1, e'.1, h))))
  ]
]

-- The loop's body raises no panic on a feature that may be registered under a new tag only.
configured :
    (r : Registry) (f : Feature)
    → misconfigured r f ≡ none
    → IsConfigured f × (lookup r f.tag ≡ none)
unfolding misconfigured
configured r f h = (
  record {
    tagged = ground (arith, h);
    named = ground (arith, h);
    dated = elim (Bool-cases (is_empty f.introduced)) [
      | inl e ↦ inl e
      | inr e ↦ inr (e, version_read (parse_major_minor f.introduced) (ground (arith, e, h)))
    ];
    ended = elim (Bool-cases (is_empty f.removed)) [
      | inl e ↦ inl e
      | inr e ↦ inr (after-Before f.removed f.introduced (ground (arith, e, h)))
    ];
  },
  unregistered (lookup r f.tag) (ground (arith, h)),
)

add_features-IsWellFormed :
    (fs : List Feature) (r s : Registry)
    → IsWellFormed r
    → add_features r fs ≡ built s
    → IsWellFormed s
unfolding add_features
add_features-IsWellFormed [] r s wf e = let same : r ≡ s = ground (arith, e) in rw (← same) wf
add_features-IsWellFormed (f ∷ fs) r s wf e = elim (Option-cases (misconfigured r f)) [
  | inl ok ↦
      let (good, fresh) = configured r f ok in
      add_features-IsWellFormed fs (f ∷ r) s (good, fresh, wf) (ground (arith, ok, e))
  | inr bad ↦ absurd (ground (arith, bad.1, e))
]

-- A registry that `NewRegistry` returns is well formed: every feature has a tag, a name and readable
-- versions, one that was removed was removed in a later release than it came in, and no two features
-- have one tag.
pub new_registry-IsWellFormed :
    (features : List Feature) (r : Registry) → new_registry features ≡ built r → IsWellFormed r
unfolding new_registry
new_registry-IsWellFormed features r e = add_features-IsWellFormed features [] r tt e
