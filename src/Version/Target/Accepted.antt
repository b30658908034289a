-- ===== src/Version/Target/Accepted.antt =====
-- What the boundary's check of a target version promises the registry behind it.
use sql_ai_tools.Prelude.{
  ℕ, ◌≡◌, refl, false, List, [], ◌∷◌, Option, none, some, Bytes, codes, arith, length, ltb,
  Bool-cases, Option-cases, inl, inr, ◌||◌,
}
use sql_ai_tools.Text.{trim_prefix, has_prefix, trim_space, split, split_at}
use sql_ai_tools.Text.Decimal.{parse_uint32, parse_nat, digits_value, is_digit}
use sql_ai_tools.Version.Target.{
  canonical, TargetError, check_components, validate_text, validated, validate_target_version,
}
use sql_ai_tools.Version.Registry.{parse_major_minor, major_minor_of}

-- A text whose first component is a number has no `v` in front.
unprefixed :
    (s p : Bytes) (ps : List Bytes) (n : ℕ)
    → split b'.' s ≡ p ∷ ps
    → parse_uint32 p ≡ some n
    → trim_prefix s (codes "v") ≡ s
unfolding trim_prefix has_prefix split split_at parse_uint32 parse_nat digits_value is_digit
unprefixed [] p ps n e h = refl
unprefixed (c ∷ s) p ps n e h = ground arith

-- A component that passes is a number, and so are the later ones.
first_numeric :
    (s a : Bytes) (ps : List Bytes)
    → check_components s (a ∷ ps) ≡ none
    → ((m : ℕ) × (parse_uint32 a ≡ some m)) × (check_components s ps ≡ none)
unfolding check_components
first_numeric s [] ps h = absurd (ground (arith, h))
first_numeric s (c ∷ a) ps h = elim (Option-cases (parse_uint32 (c ∷ a))) [
  | inl e ↦ absurd (ground (arith, h, e))
  | inr e ↦ (e, ground (arith, h, e.1))
]

two_numeric :
    (s t : Bytes) (parts : List Bytes)
    → split b'.' t ≡ parts
    → ltb (length parts) 2 ≡ false
    → check_components s parts ≡ none
    → (v : ℕ × ℕ) × (parse_major_minor t ≡ some v)
unfolding parse_major_minor major_minor_of
two_numeric s t [] e l h = absurd (ground (arith, l))
two_numeric s t (a ∷ []) e l h = absurd (ground (arith, l))
two_numeric s t (a ∷ b ∷ parts) e l h =
    let (major, later) = first_numeric s a (b ∷ parts) h in
    let (minor, _) = first_numeric s b parts later in
    ((major.0, minor.0), rw (unprefixed t a (b ∷ parts) major.0 e major.1, e, major.1, minor.1))

validated-canonical :
    (text t : Bytes) (o : Option TargetError)
    → validated text o ≡ canonical t
    → (o ≡ none) × (text ≡ t)
unfolding validated
validated-canonical text t none h = (refl, ground (arith, h))
validated-canonical text t (some e) h = absurd (ground (arith, h))

text_parses :
    (u t : Bytes) → validate_text u ≡ canonical t → (v : ℕ × ℕ) × (parse_major_minor t ≡ some v)
unfolding validate_text
text_parses [] t e = absurd (ground (arith, e))
text_parses (c ∷ u) t e = elim (Bool-cases (ltb (length parts) 2 || ltb 3 (length parts))) [
  | inl b ↦ absurd (ground (arith, b, e))
  | inr b ↦
      let (ok, same) =
        validated-canonical text t (check_components (c ∷ u) parts) (ground (arith, b, e)) in
      rw (← same) (two_numeric (c ∷ u) text parts refl (ground (arith, b)) ok)
]
  where
    text : Bytes
    text = trim_prefix (c ∷ u) (codes "v")

    parts : List Bytes
    parts = split b'.' text

-- A target version that `ValidateTargetVersion` accepts is a version for the registry: its major and
-- minor numbers are read, so a caller that checked its target never meets the registry's fallback.
accepted_parses :
    (s t : Bytes)
    → validate_target_version s ≡ canonical t
    → (v : ℕ × ℕ) × (parse_major_minor t ≡ some v)
unfolding validate_target_version
accepted_parses s t h = text_parses (trim_space s) t h
