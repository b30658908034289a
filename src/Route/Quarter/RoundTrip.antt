-- ===== src/Route/Quarter/RoundTrip.antt =====
-- What quarter.go prints is read back as the quarter that was printed.
use sql_ai_tools.Prelude.{
  ℕ, suc, ◌+◌, ◌-◌, ◌<◌, ◌≡◌, ◌≢◌, refl, true, false, [], ◌∷◌, ◌++◌, ◌∙◌, Bool, ◌&&◌, if◌then◌else◌,
  append_assoc, some, arith, Bytes, codes, length, length-append, drop, All-append, ◌==◌,
}
use sql_ai_tools.Prelude.Int.{pos}
use sql_ai_tools.Text.{trim_prefix, split, is_space, has_prefix}
use sql_ai_tools.Text.Decimal.{
  itoa, atoi-itoa, int_limit, is_digit, AllDigits, format_nat-AllDigits, format_nat-ne-nil,
  format_nat-digit,
}
use sql_ai_tools.Text.Laws.{
  NoSpace, Lacks, trim_space-NoSpace, split-Lacks, split-append, take_all-append, drop_all-append,
}
use sql_ai_tools.Route.Quarter.{
  Quarter, make_quarter, is_zero, string, tag, quarter_of, first_two, parse_from_target, tag_parts,
  parse_tag,
}
use sql_ai_tools.Route.Quarter.Validity.{IsValid}

quarter_of-printed :
    (y k : ℕ)
    → suc y < int_limit
    → k < 4
    → quarter_of (itoa (pos (suc y))) (itoa (pos (suc k)))
      ≡ some (record { year = pos (suc y); q = pos (suc k) })
unfolding quarter_of make_quarter
quarter_of-printed y k hy hk = ground (arith, atoi-itoa (suc y) hy, atoi-itoa (suc k) (omega arith))

itoa-digit : (k : ℕ) → k < 4 → itoa (pos (suc k)) ≡ (b'0' + suc k) ∷ []
unfolding itoa
itoa-digit k h = format_nat-digit (suc k) (omega arith)

itoa-ne-nil : (n : ℕ) → itoa (pos n) ≢ []
unfolding itoa
itoa-ne-nil n = format_nat-ne-nil n

itoa-AllDigits : (n : ℕ) → AllDigits (itoa (pos n))
unfolding itoa
itoa-AllDigits n = format_nat-AllDigits n

length_pos : (s : Bytes) → s ≢ [] → 0 < length s
length_pos [] h = absurd (h refl)
length_pos (c ∷ s) h = omega arith

tag_parts-append : (s : Bytes) (d : ℕ) → s ≢ [] → tag_parts (s ++ d ∷ []) ≡ quarter_of s (d ∷ [])
unfolding tag_parts
tag_parts-append s d h =
    let len : length (s ++ d ∷ []) - 1 ≡ length s = omega (arith, length-append {0} s (d ∷ [])) in
    ground (
      arith,
      length_pos s h,
      length-append {0} s (d ∷ []),
      take_all-append s (d ∷ []) (length (s ++ d ∷ []) - 1) len,
      drop_all-append s (d ∷ []) (length (s ++ d ∷ []) - 1) len,
    )

trim_prefix-digits :
    (s t : Bytes) → s ≢ [] → AllDigits s → trim_prefix (s ++ t) (codes "v") ≡ s ++ t
unfolding trim_prefix has_prefix is_digit
trim_prefix-digits [] t ne h = absurd (ne refl)
trim_prefix-digits (c ∷ s) t ne h = ground (arith, h.0)

trim_prefix-v : (s : Bytes) → trim_prefix (b'v' ∷ s) (codes "v") ≡ s
unfolding trim_prefix has_prefix
trim_prefix-v s = refl

module _ (y k : ℕ) (hy : suc y < int_limit) (hk : k < 4) where
  abbrev made : Quarter
  made = record { year = pos (suc y); q = pos (suc k) }

  abbrev year_str : Bytes
  year_str = itoa (pos (suc y))

  abbrev q_str : Bytes
  q_str = itoa (pos (suc k))

  tag_printed : tag made ≡ b'v' ∷ (year_str ++ q_str)
  unfolding tag is_zero
  tag_printed = ground arith

  string_printed : string made ≡ year_str ++ (b'.' ∷ q_str)
  unfolding string is_zero
  string_printed = ground arith

  tag_parts-printed : tag_parts (year_str ++ q_str) ≡ some made
  tag_parts-printed =
      rw (itoa-digit k hk, tag_parts-append year_str _ (itoa-ne-nil (suc y)), ← itoa-digit k hk)
        (quarter_of-printed y k hy hk)

  parse_tag-made : (parse_tag (tag made) ≡ some made) × (parse_tag (drop 1 (tag made)) ≡ some made)
  unfolding parse_tag
  parse_tag-made = (
    rw (tag_printed, trim_prefix-v) tag_parts-printed,
    rw
        (
          tag_printed,
          trim_prefix-digits year_str q_str (itoa-ne-nil (suc y)) (itoa-AllDigits (suc y)),
        )
        tag_parts-printed,
  )

-- A quarter in range whose year fits 64 bits is read back from its tag, with or without the v.
pub parse_tag-tag :
    (quarter : Quarter) (v : IsValid quarter)
    → suc v.y < int_limit
    → (parse_tag (tag quarter) ≡ some quarter) × (parse_tag (drop 1 (tag quarter)) ≡ some quarter)
parse_tag-tag quarter v fits =
    let e : made v.y v.k fits v.ordinal ≡ quarter = ground (arith, v.year_eq, v.q_eq) in
    rw (← e) (parse_tag-made v.y v.k fits v.ordinal)

digit-NoSpace : (s : Bytes) → AllDigits s → NoSpace s
unfolding is_digit is_space
digit-NoSpace [] h = tt
digit-NoSpace (c ∷ s) h = (ground (arith, h.0), digit-NoSpace s h.1)

digit-Lacks : (s : Bytes) → AllDigits s → Lacks b'.' s
unfolding is_digit
digit-Lacks [] h = tt
digit-Lacks (c ∷ s) h = (ground (arith, h.0), digit-Lacks s h.1)

-- A text of digits, a point and more, all without white space, is cut at its first points.
module _ (y k : ℕ) (hy : suc y < int_limit) (hk : k < 4) where
  module _ (t : Bytes) (clean : NoSpace t) where
    target_text : Bytes
    target_text = itoa (pos (suc y)) ++ (b'.' ∷ t)

    clean_text : NoSpace target_text
    unfolding target_text is_space
    clean_text =
        All-append (λ c. is_space c ≡ false) (itoa (pos (suc y))) (b'.' ∷ t)
          (digit-NoSpace _ (itoa-AllDigits (suc y))) (refl, clean)

    parse-plain : parse_from_target target_text ≡ first_two (itoa (pos (suc y)) ∷ split b'.' t)
    unfolding parse_from_target target_text
    parse-plain =
        rw
          (
            trim_space-NoSpace target_text clean_text,
            trim_prefix-digits _ _ (itoa-ne-nil (suc y)) (itoa-AllDigits (suc y)),
            split-append b'.' _ t (digit-Lacks _ (itoa-AllDigits (suc y))),
          )
          refl

    parse-v : parse_from_target (b'v' ∷ target_text) ≡ first_two (itoa (pos (suc y)) ∷ split b'.' t)
    unfolding parse_from_target target_text is_space
    parse-v =
        rw
          (
            trim_space-NoSpace (b'v' ∷ target_text) (refl, clean_text),
            trim_prefix-v,
            split-append b'.' _ t (digit-Lacks _ (itoa-AllDigits (suc y))),
          )
          refl

  q_text-NoSpace : NoSpace (itoa (pos (suc k)))
  q_text-NoSpace = digit-NoSpace _ (itoa-AllDigits (suc k))

  q_text-Lacks : Lacks b'.' (itoa (pos (suc k)))
  q_text-Lacks = digit-Lacks _ (itoa-AllDigits (suc k))

  minor_only :
      first_two (itoa (pos (suc y)) ∷ split b'.' (itoa (pos (suc k)))) ≡ some (made y k hy hk)
  unfolding first_two
  minor_only = rw (split-Lacks b'.' _ q_text-Lacks) (quarter_of-printed y k hy hk)

  minor_patch :
      (patch : Bytes)
      → first_two (itoa (pos (suc y)) ∷ split b'.' (itoa (pos (suc k)) ++ (b'.' ∷ patch)))
        ≡ some (made y k hy hk)
  unfolding first_two
  minor_patch patch = rw (split-append b'.' _ patch q_text-Lacks) (quarter_of-printed y k hy hk)

  -- The two texts of a quarter, as `--target-version` takes them.
  parse_from_target-made :
      (patch : Bytes)
      → NoSpace patch
      → (parse_from_target (string (made y k hy hk)) ≡ some (made y k hy hk))
        × (parse_from_target (b'v' ∷ string (made y k hy hk)) ≡ some (made y k hy hk))
        × (parse_from_target (string (made y k hy hk) ++ (b'.' ∷ patch)) ≡ some (made y k hy hk))
        × (parse_from_target (b'v' ∷ (string (made y k hy hk) ++ (b'.' ∷ patch)))
            ≡ some (made y k hy hk))
  unfolding target_text
  parse_from_target-made patch clean =
      let longer : NoSpace (itoa (pos (suc k)) ++ (b'.' ∷ patch)) =
        All-append (λ c. is_space c ≡ false) (itoa (pos (suc k))) (b'.' ∷ patch) q_text-NoSpace
          (unfold is_space in refl, clean) in
      rw (string_printed y k hy hk) (
        parse-plain _ q_text-NoSpace ∙ minor_only,
        parse-v _ q_text-NoSpace ∙ minor_only,
        rw append_assoc (parse-plain _ longer ∙ minor_patch patch),
        rw append_assoc (parse-v _ longer ∙ minor_patch patch),
      )

-- A quarter in range whose year fits 64 bits is read back from its printed form, with or without a
-- leading v, and with or without a patch behind a further point, which is ignored.
pub parse_from_target-string :
    (quarter : Quarter) (v : IsValid quarter) (patch : Bytes)
    → suc v.y < int_limit
    → NoSpace patch
    → (parse_from_target (string quarter) ≡ some quarter)
      × (parse_from_target (b'v' ∷ string quarter) ≡ some quarter)
      × (parse_from_target (string quarter ++ (b'.' ∷ patch)) ≡ some quarter)
      × (parse_from_target (b'v' ∷ (string quarter ++ (b'.' ∷ patch))) ≡ some quarter)
parse_from_target-string quarter v patch fits clean =
    let e : made v.y v.k fits v.ordinal ≡ quarter = ground (arith, v.year_eq, v.q_eq) in
    rw (← e) (parse_from_target-made v.y v.k fits v.ordinal patch clean)

-- The tag of a quarter in range holds no point.
pub tag-Lacks : (quarter : Quarter) → IsValid quarter → Lacks b'.' (tag quarter)
unfolding tag is_zero
tag-Lacks quarter v =
    rw (v.year_eq, v.q_eq)
      (pick (suc v.y == 0 && suc v.k == 0) (
        All-append (λ c. (c == b'.') ≡ false) (itoa (pos (suc v.y))) (itoa (pos (suc v.k)))
          (digit-Lacks _ (itoa-AllDigits (suc v.y))) (digit-Lacks _ (itoa-AllDigits (suc v.k)))))
  where
    pick :
        (t : Bool)
        → Lacks b'.' (itoa (pos (suc v.y)) ++ itoa (pos (suc v.k)))
        → Lacks b'.' (if t then [] else b'v' ∷ (itoa (pos (suc v.y)) ++ itoa (pos (suc v.k))))
    pick true h = tt
    pick false h = (refl, h)
