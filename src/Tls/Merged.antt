-- ===== src/Tls/Merged.antt =====
-- What tls.go merges, and when it refuses to.
use sql_ai_tools.Prelude.{
  ◌≡◌, ◌≢◌, ◌⊎◌, refl, sym, ◌∙◌, true, false, List, [], ◌∷◌, Option, none, some, Bytes, All, arith,
  Bool-cases, inl, inr, codes,
}
use sql_ai_tools.Text.{trim_space, bytes_eq}
use sql_ai_tools.Text.Laws.{bytes_eq_iff}
use sql_ai_tools.Tls.Given.{
  NoneGiven, IsPaired, IsGiven, IsUri, is_zero_iff, is_half_pair_iff, is_uri_iff,
}
use sql_ai_tools.Tls.{
  Urls, Field, TlsParams, Result, merged, rejected, already_present, half_pair, is_empty,
  set_fields, fields_of, merge_tls_params, is_zero, is_half_pair, is_uri, no_dsn, not_uri, bad_uri,
  rebuilt, merge_parsed, merge_trimmed,
}

-- `Set` and `Get` of `url.Values`, as documented.
pub record UrlLaws {U V : Type 0} (url : Urls U V) : Type 0 where
  pub get-set : (q : V) (name val : Bytes) → url.get (url.set q name val) name ≡ val
  pub get-set-other :
      (q : V) (name other val : Bytes)
      → other ≢ name
      → url.get (url.set q name val) other ≡ url.get q other

-- No two fields have the same name.
abbrev pub Distinct : List Field → Type 0
Distinct [] = Unit
Distinct (f ∷ fields) = All (λ (g : Field). g.name ≢ f.name) fields × Distinct fields

-- No field that has a value has the name.
abbrev pub Unset : Bytes → List Field → Type 0
Unset name fields = All (λ (f : Field). (f.val ≡ []) ⊎ (name ≢ f.name)) fields

apart : (s t : Bytes) → bytes_eq s t ≡ false → s ≢ t
apart s t h e = absurd (ground (arith, h, (bytes_eq_iff s t).1 e))

module _ {U V : Type 0} (url : Urls U V) (law : UrlLaws url) where
  -- A field with a value had none before, and has its own afterwards.
  abbrev pub Taken : V → V → Field → Type 0
  Taken q w f = (f.val ≡ []) ⊎ ((url.get q f.name ≡ []) × (url.get w f.name ≡ f.val))

  -- The values that the fields set, or the name of a field with a value that was there before.
  abbrev pub Merges : List Field → V → Result V → Type 0
  Merges fields q (merged w) =
      All (Taken q w) fields
      × ((name : Bytes) → Unset name fields → url.get w name ≡ url.get q name)
  Merges fields q (rejected e) =
      (name : Bytes) × (¬ Unset name fields)
      × (e ≡ already_present name (url.get q name))
      × (url.get q name ≢ [])

  empty-cases : (s : Bytes) → ((is_empty s ≡ true) × (s ≡ [])) ⊎ ((is_empty s ≡ false) × (s ≢ []))
  empty-cases [] = inl (refl, refl)
  empty-cases (c ∷ s) = inr (refl, λ e. cc)

  skip-Merges :
      (f : Field) (fields : List Field) (q : V) (r : Result V)
      → f.val ≡ []
      → Merges fields q r
      → Merges (f ∷ fields) q r
  skip-Merges f fields q (merged w) e (all, same) = ((inl e, all), λ name u. same name u.1)
  skip-Merges f fields q (rejected x) e (name, there, h, used) = (name, (λ u. there u.1), h, used)

  back :
      (f : Field) (fields : List Field) (q w : V)
      → All (λ (g : Field). g.name ≢ f.name) fields
      → All (Taken (url.set q f.name f.val) w) fields
      → All (Taken q w) fields
  back f [] q w d h = tt
  back f (g ∷ fields) q w (ne, d) (inl e, h) = (inl e, back f fields q w d h)
  back f (g ∷ fields) q w (ne, d) (inr (was, now), h) =
      (inr (sym (law.get-set-other q f.name g.name f.val ne) ∙ was, now), back f fields q w d h)

  others-Unset :
      (name : Bytes) (fields : List Field)
      → All (λ (g : Field). g.name ≢ name) fields
      → Unset name fields
  others-Unset name [] h = tt
  others-Unset name (g ∷ fields) (ne, h) = (inr (λ e. ne (sym e)), others-Unset name fields h)

  set-Merges :
      (f : Field) (fields : List Field) (q : V) (r : Result V)
      → Distinct (f ∷ fields)
      → f.val ≢ []
      → url.get q f.name ≡ []
      → Merges fields (url.set q f.name f.val) r
      → Merges (f ∷ fields) q r
  set-Merges f fields q (merged w) d ne was (all, same) = (
    (
      inr (was, same f.name (others-Unset f.name fields d.0) ∙ law.get-set q f.name f.val),
      back f fields q w d.0 all,
    ),
    λ name u. same name u.1 ∙ other name u.0,
  )
    where
      other :
          (name : Bytes)
          → (f.val ≡ []) ⊎ (name ≢ f.name)
          → url.get (url.set q f.name f.val) name ≡ url.get q name
      other name (inl e) = absurd (ne e)
      other name (inr off) = law.get-set-other q f.name name f.val off
  set-Merges f fields q (rejected x) d ne was (name, there, e, used) =
      let off : name ≢ f.name = λ k. there (rw k (others-Unset f.name fields d.0)) in
      let same = law.get-set-other q f.name name f.val off in
      (name, (λ u. there u.1), rw (← same) e, rw (← same) used)

  Unset-now : (f : Field) (fields : List Field) → Unset f.name (f ∷ fields) → f.val ≢ [] → ⊥
  Unset-now f fields (inl e, u) ne = ne e
  Unset-now f fields (inr off, u) ne = off refl

  set_fields-Merges :
      (fields : List Field) (q : V) → Distinct fields → Merges fields q (set_fields url fields q)
  unfolding set_fields
  set_fields-Merges [] q d = (tt, λ name u. refl)
  set_fields-Merges (f ∷ fields) q d = elim (empty-cases f.val) [
    | inl (b, e) ↦
        rw b (skip-Merges f fields q (set_fields url fields q) e (set_fields-Merges fields q d.1))
    | inr (b, ne) ↦ rw b (elim (empty-cases (url.get q f.name)) [
      | inl (c, was) ↦ rw c (
          set-Merges f fields q (set_fields url fields (url.set q f.name f.val)) d ne was
            (set_fields-Merges fields (url.set q f.name f.val) d.1))
      | inr (c, used) ↦ rw c (f.name, (λ u. Unset-now f fields u ne), refl, used)
    ])
  ]

  -- What the outcome says of the connection string and the parameters.
  abbrev pub Merged : Bytes → TlsParams → Result Bytes → Type 0
  Merged dsn p (merged s) =
      (NoneGiven p × (s ≡ dsn))
      ⊎ (IsGiven p
          × IsUri (trim_space dsn)
          × (u : U) × (w : V) × (url.parse (trim_space dsn) ≡ some u)
          × (s ≡ url.rebuild u w)
          × Merges (fields_of p) (url.query u) (merged w))
  Merged dsn p (rejected half_pair) = ¬ IsPaired p
  Merged dsn p (rejected no_dsn) = IsGiven p × (trim_space dsn ≡ [])
  Merged dsn p (rejected not_uri) = IsGiven p × (trim_space dsn ≢ []) × (¬ IsUri (trim_space dsn))
  Merged dsn p (rejected bad_uri) =
      IsGiven p × IsUri (trim_space dsn) × (url.parse (trim_space dsn) ≡ none)
  Merged dsn p (rejected (already_present name val)) =
      IsGiven p
      × IsUri (trim_space dsn)
      × (u : U) × (url.parse (trim_space dsn) ≡ some u)
      × Merges (fields_of p) (url.query u) (rejected (already_present name val))

  distinct : (p : TlsParams) → Distinct (fields_of p)
  unfolding bytes_eq
  distinct p = (
    (
      apart (codes "sslrootcert") (codes "sslmode") refl,
      (
        apart (codes "sslcert") (codes "sslmode") refl,
        (apart (codes "sslkey") (codes "sslmode") refl, tt),
      ),
    ),
    (
      (
        apart (codes "sslcert") (codes "sslrootcert") refl,
        (apart (codes "sslkey") (codes "sslrootcert") refl, tt),
      ),
      ((apart (codes "sslkey") (codes "sslcert") refl, tt), (tt, tt)),
    ),
  )

  rebuilt-Merged :
      (dsn : Bytes) (p : TlsParams) (u : U) (r : Result V)
      → IsGiven p
      → IsUri (trim_space dsn)
      → url.parse (trim_space dsn) ≡ some u
      → Merges (fields_of p) (url.query u) r
      → Merged dsn p (rebuilt url u r)
  unfolding rebuilt
  rebuilt-Merged dsn p u (merged w) half uri e h = inr (half, uri, u, w, e, refl, h)
  rebuilt-Merged dsn p u (rejected half_pair) half uri e (name, k, x, y) = cc
  rebuilt-Merged dsn p u (rejected no_dsn) half uri e (name, k, x, y) = cc
  rebuilt-Merged dsn p u (rejected not_uri) half uri e (name, k, x, y) = cc
  rebuilt-Merged dsn p u (rejected bad_uri) half uri e (name, k, x, y) = cc
  rebuilt-Merged dsn p u (rejected (already_present name val)) half uri e h = (half, uri, u, e, h)

  parsed-Merged :
      (dsn : Bytes) (p : TlsParams) (o : Option U)
      → IsGiven p
      → IsUri (trim_space dsn)
      → url.parse (trim_space dsn) ≡ o
      → Merged dsn p (merge_parsed url p o)
  unfolding merge_parsed
  parsed-Merged dsn p none half uri e = (half, uri, e)
  parsed-Merged dsn p (some u) half uri e =
      rebuilt-Merged dsn p u (set_fields url (fields_of p) (url.query u)) half uri e
        (set_fields-Merges (fields_of p) (url.query u) (distinct p))

  trimmed-Merged :
      (dsn : Bytes) (p : TlsParams)
      → IsGiven p
      → Merged dsn p (merge_trimmed url p (trim_space dsn))
  unfolding merge_trimmed
  trimmed-Merged dsn p half = elim (empty-cases (trim_space dsn)) [
    | inl (b, e) ↦ rw b (half, e)
    | inr (b, ne) ↦ rw b (elim (Bool-cases (is_uri (trim_space dsn))) [
      | inl c ↦ rw c (
          parsed-Merged dsn p (url.parse (trim_space dsn)) half ((is_uri_iff (trim_space dsn)).0 c)
            refl)
      | inr c ↦ rw c (half, ne, λ uri. ground (arith, c, (is_uri_iff (trim_space dsn)).1 uri))
    ])
  ]

  -- Where `url.Values` sets and gets as documented, the merge returns the string as it is when no
  -- parameter is given. Otherwise it refuses half a pair, a blank string, a string that begins with
  -- neither scheme or does not parse, and a parameter that the query has already; or, with a pair or none,
  -- it returns the address whose query has each parameter that is given, had none of them before, and
  -- keeps every other name.
  pub merge_tls_params-Merged :
      (dsn : Bytes) (p : TlsParams) → Merged dsn p (merge_tls_params url dsn p)
  unfolding merge_tls_params
  merge_tls_params-Merged dsn p = elim (Bool-cases (is_zero p)) [
    | inl b ↦ rw b (inl ((is_zero_iff p).0 b, refl))
    | inr b ↦ rw b (elim (Bool-cases (is_half_pair p)) [
      | inl c ↦ rw c (λ pair. ground (arith, c, (is_half_pair_iff p).1 pair))
      | inr c ↦ rw c (
          trimmed-Merged dsn p
            (λ h. ground (arith, b, (is_zero_iff p).1 h), (is_half_pair_iff p).0 c))
    ])
  ]
