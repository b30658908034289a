-- ===== src/Text/Laws.antt =====
-- The laws of the text functions that the components' proofs use.
use sql_ai_tools.Prelude.{
  ◌≡◌, ◌↔◌, refl, true, [], ◌∷◌, ◌++◌, arith, Bytes, ℕ, zero, suc, false, ap, All, ◌==◌, take,
  length, drop,
}
use sql_ai_tools.Text.{
  bytes_eq, has_prefix, trim_prefix, trim_suffix, is_space, trim_left, trim_right, trim_space,
  split_at, split,
}

pub bytes_eq_iff : (s t : Bytes) → (bytes_eq s t ≡ true) ↔ (s ≡ t)
unfolding bytes_eq
bytes_eq_iff [] [] = (λ h. refl, λ h. refl)
bytes_eq_iff [] (c ∷ t) = (λ h. cc, λ h. cc)
bytes_eq_iff (c ∷ s) [] = (λ h. cc, λ h. cc)
bytes_eq_iff (c ∷ s) (d ∷ t) =
    (λ h. ground (arith, bytes_eq_iff s t), λ h. ground (arith, bytes_eq_iff s t))

pub has_prefix-append : (p s : Bytes) → has_prefix (p ++ s) p ≡ true
unfolding has_prefix
has_prefix-append [] s = refl
has_prefix-append (c ∷ p) s = ground (arith, has_prefix-append p s)

pub drop-length-append : (p s : Bytes) → drop (length p) (p ++ s) ≡ s
drop-length-append [] s = refl
drop-length-append (c ∷ p) s = drop-length-append p s

-- Trimming a prefix gives back what stands behind it.
pub trim_prefix-append : (p s : Bytes) → trim_prefix (p ++ s) p ≡ s
unfolding trim_prefix
trim_prefix-append p s = rw (has_prefix-append p s) (drop-length-append p s)

abbrev pub NoSpace : Bytes → Type 0
NoSpace = All (λ c. is_space c ≡ false)

trim_left-NoSpace : (s : Bytes) → NoSpace s → trim_left s ≡ s
unfolding trim_left
trim_left-NoSpace [] h = refl
trim_left-NoSpace (c ∷ s) h = rw (h.0)

trim_right-NoSpace : (s : Bytes) → NoSpace s → trim_right s ≡ s
unfolding trim_right
trim_right-NoSpace [] h = refl
trim_right-NoSpace (c ∷ s) h = ground (arith, trim_right-NoSpace s h.1)

pub trim_space-NoSpace : (s : Bytes) → NoSpace s → trim_space s ≡ s
unfolding trim_space
trim_space-NoSpace s h = rw (trim_left-NoSpace s h) (trim_right-NoSpace s h)

abbrev pub Lacks : ℕ → Bytes → Type 0
Lacks b = All (λ c. (c == b) ≡ false)

pub split-Lacks : (sep : ℕ) (s : Bytes) → Lacks sep s → split sep s ≡ s ∷ []
unfolding split
split-Lacks sep s h = rw (whole s h)
  where
    whole : (s : Bytes) → Lacks sep s → split_at sep s ≡ (s, [])
    whole [] h = refl
    whole (c ∷ s) h = ground (arith, whole s h.1)

-- A split finds the first part in front of a separator.
pub split-append :
    (sep : ℕ) (s t : Bytes) → Lacks sep s → split sep (s ++ sep ∷ t) ≡ s ∷ split sep t
unfolding split
split-append sep s t h = rw (front s h)
  where
    front : (s : Bytes) → Lacks sep s → split_at sep (s ++ sep ∷ t) ≡ (s, split sep t)
    front [] h = ground arith
    front (c ∷ s) h = ground (arith, front s h.1)

pub take_all-append : (s t : Bytes) (n : ℕ) → n ≡ length s → take n (s ++ t) ≡ s
take_all-append [] t n h = rw h
take_all-append (c ∷ s) t zero h = absurd (omega arith)
take_all-append (c ∷ s) t (suc n) h = ap (λ r. c ∷ r) (take_all-append s t n (omega arith))

pub drop_all-append : (s t : Bytes) (n : ℕ) → n ≡ length s → drop n (s ++ t) ≡ t
drop_all-append [] t n h = rw h
drop_all-append (c ∷ s) t zero h = absurd (omega arith)
drop_all-append (c ∷ s) t (suc n) h = drop_all-append s t n (omega arith)

-- A text that lacks the first byte of a suffix keeps its end.
pub trim_suffix-Lacks : (b : ℕ) (suffix s : Bytes) → Lacks b s → trim_suffix s (b ∷ suffix) ≡ s
unfolding trim_suffix bytes_eq
trim_suffix-Lacks b suffix [] h = refl
trim_suffix-Lacks b suffix (c ∷ s) h = ground (arith, trim_suffix-Lacks b suffix s h.1)

pub trim_suffix-append :
    (b : ℕ) (suffix s : Bytes) → Lacks b s → trim_suffix (s ++ b ∷ suffix) (b ∷ suffix) ≡ s
unfolding trim_suffix
trim_suffix-append b suffix [] h = rw ((bytes_eq_iff (b ∷ suffix) (b ∷ suffix)).1 refl)
trim_suffix-append b suffix (c ∷ s) h =
    ground
      (arith, trim_suffix-append b suffix s h.1, bytes_eq_iff (c ∷ (s ++ b ∷ suffix)) (b ∷ suffix))
