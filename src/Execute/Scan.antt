-- ===== src/Execute/Scan.antt =====
-- The rows that the scan of execute.go keeps.
use sql_ai_tools.Prelude.{
  ℕ, zero, suc, ◌+◌, ◌≤◌, ◌≡◌, refl, true, false, List, [], ◌∷◌, ◌++◌, map, length, take, Option,
  some, leb, ltb, arith, append-nil, append_assoc, length-append,
}
use sql_ai_tools.Prelude.Int.{ℤ, pos, negsuc}
use sql_ai_tools.Execute.{scanned, at_cap, scan}

module _ {R : Type 0} where
  -- The values that `rows.Values` gives without an error.
  abbrev values : List R → List (Option R)
  values = map some

  uncapped :
      (max_rows : ℤ) (rows got : List R)
      → ((n : ℕ) → at_cap max_rows n ≡ false)
      → scan max_rows (values rows) got ≡ scanned (got ++ rows) false
  unfolding scan
  uncapped max_rows [] got off = rw (append-nil got) refl
  uncapped max_rows (r ∷ rows) got off =
      rw
        (
          off (length got),
          uncapped max_rows rows (got ++ r ∷ []) off,
          append_assoc got (r ∷ []) rows,
        )
        refl

  full :
      (n : ℕ) (r : R) (rows got : List R)
      → suc n ≤ length got
      → scan (pos (suc n)) (values (r ∷ rows)) got ≡ scanned got true
  unfolding scan at_cap
  full n r rows got h = let b : leb (suc n) (length got) ≡ true = ground (arith, h) in rw b refl

  -- There is room for `room` more rows.
  capped :
      (n room : ℕ) (rows got : List R)
      → length got + room ≡ suc n
      → scan (pos (suc n)) (values rows) got
        ≡ scanned (got ++ take room rows) (ltb room (length rows))
  unfolding scan at_cap
  capped n zero [] got h =
      let none_left : ltb 0 (length {A = R} []) ≡ false = ground arith in
      rw (append-nil got, none_left) refl
  capped n (suc room) [] got h =
      let none_left : ltb (suc room) (length {A = R} []) ≡ false = ground arith in
      rw (append-nil got, none_left) refl
  capped n zero (r ∷ rows) got h =
      let more : ltb 0 (length (r ∷ rows)) ≡ true = ground arith in
      rw (full n r rows got (omega (arith, h)), append-nil got, more) refl
  capped n (suc room) (r ∷ rows) got h =
      let b : leb (suc n) (length got) ≡ false = ground (arith, h) in
      let more : length (got ++ r ∷ []) + room ≡ suc n =
        omega (arith, h, length-append got (r ∷ [])) in
      let same : ltb (suc room) (length (r ∷ rows)) ≡ ltb room (length rows) = ground arith in
      rw
        (
          b,
          same,
          capped n room rows (got ++ r ∷ []) more,
          append_assoc got (r ∷ []) (take room rows),
        )
        refl

  -- Where each row can be read, a positive `MaxRows` keeps the first rows up to that number, and
  -- reports `Truncated` exactly when there are more; any other value keeps them all.
  pub scan-take :
      (n : ℕ) (rows : List R)
      → (scan (pos (suc n)) (values rows) []
          ≡ scanned (take (suc n) rows) (ltb (suc n) (length rows)))
        × (scan (pos 0) (values rows) [] ≡ scanned rows false)
        × (scan (negsuc n) (values rows) [] ≡ scanned rows false)
  unfolding at_cap
  scan-take n rows = (
    capped n (suc n) rows [] (omega arith),
    uncapped (pos 0) rows [] (λ k. refl),
    uncapped (negsuc n) rows [] (λ k. refl),
  )
