-- ===== src/Tls/Given.antt =====
-- What tls.go asks of the parameters and of the connection string before it merges them.
use sql_ai_tools.Prelude.{
  ◌≡◌, ◌⊎◌, ◌↔◌, refl, Bool, true, false, ◌||◌, [], ◌∷◌, ◌++◌, Bytes, arith, inl, inr, codes,
}
use sql_ai_tools.Text.{has_prefix}
use sql_ai_tools.Text.Laws.{has_prefix-append}
use sql_ai_tools.Tls.{TlsParams, is_empty, is_zero, is_half_pair, is_uri}

abbrev pub NoneGiven : TlsParams → Type 0
NoneGiven p = (p.ssl_mode ≡ []) × (p.ssl_root_cert ≡ []) × (p.ssl_cert ≡ []) × (p.ssl_key ≡ [])

-- A certificate comes with a key, and a key with a certificate.
abbrev pub IsPaired : TlsParams → Type 0
IsPaired p = (p.ssl_cert ≡ []) ↔ (p.ssl_key ≡ [])

-- Something is given, and no half of a pair.
abbrev pub IsGiven : TlsParams → Type 0
IsGiven p = (¬ NoneGiven p) × IsPaired p

abbrev pub Starts : Bytes → Bytes → Type 0
Starts scheme s = (rest : Bytes) × (s ≡ scheme ++ rest)

abbrev pub IsUri : Bytes → Type 0
IsUri s = Starts (codes "postgres://") s ⊎ Starts (codes "postgresql://") s

is_empty_iff : (s : Bytes) → (is_empty s ≡ true) ↔ (s ≡ [])
is_empty_iff [] = (λ h. refl, λ h. refl)
is_empty_iff (c ∷ s) = (λ h. cc, λ h. cc)

pub is_zero_iff : (p : TlsParams) → (is_zero p ≡ true) ↔ NoneGiven p
unfolding is_zero
is_zero_iff p =
    let m = is_empty_iff p.ssl_mode in
    let r = is_empty_iff p.ssl_root_cert in
    let c = is_empty_iff p.ssl_cert in
    let k = is_empty_iff p.ssl_key in
    (λ h. ground (arith, h, m, r, c, k), λ h. ground (arith, h, m, r, c, k))

pub is_half_pair_iff : (p : TlsParams) → (is_half_pair p ≡ false) ↔ IsPaired p
unfolding is_half_pair
is_half_pair_iff p =
    let c = is_empty_iff p.ssl_cert in
    let k = is_empty_iff p.ssl_key in
    (
      λ h. (λ e. ground (arith, h, c, k, e), λ e. ground (arith, h, c, k, e)),
      λ (to, from). ground (arith, c, k, to, from),
    )

has_prefix-Starts : (s scheme : Bytes) → has_prefix s scheme ≡ true → Starts scheme s
unfolding has_prefix
has_prefix-Starts s [] h = (s, refl)
has_prefix-Starts [] (p ∷ scheme) h = cc
has_prefix-Starts (c ∷ s) (p ∷ scheme) h =
    let (rest, e) = has_prefix-Starts s scheme (ground (arith, h)) in (rest, ground (arith, h, e))

Starts-has_prefix : (s scheme : Bytes) → Starts scheme s → has_prefix s scheme ≡ true
Starts-has_prefix s scheme (rest, e) = rw e (has_prefix-append scheme rest)

pub is_uri_iff : (s : Bytes) → (is_uri s ≡ true) ↔ IsUri s
unfolding is_uri
is_uri_iff s = (λ h. sound (has_prefix s (codes "postgres://")) refl h, complete)
  where
    sound :
        (b : Bool)
        → has_prefix s (codes "postgres://") ≡ b
        → (has_prefix s (codes "postgres://") || has_prefix s (codes "postgresql://")) ≡ true
        → IsUri s
    sound true e h = inl (has_prefix-Starts s (codes "postgres://") e)
    sound false e h = inr (has_prefix-Starts s (codes "postgresql://") (ground (arith, e, h)))

    complete :
        IsUri s
        → (has_prefix s (codes "postgres://") || has_prefix s (codes "postgresql://")) ≡ true
    complete (inl h) = rw (Starts-has_prefix s (codes "postgres://") h) refl
    complete (inr h) = let e = Starts-has_prefix s (codes "postgresql://") h in ground (arith, e)
