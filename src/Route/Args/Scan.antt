-- ===== src/Route/Args/Scan.antt =====
-- Which argument the scan reads.
use sql_ai_tools.Prelude.{◌≡◌, refl, false, List, [], ◌∷◌, ◌++◌, none, some, arith, Bytes, All}
use sql_ai_tools.Text.{bytes_eq, has_prefix, trim_prefix}
use sql_ai_tools.Route.Args.{flag, flag_eq, end_of_options, scan_args, extract_target_version}

-- An argument that the scan passes over.
pub record IsOther (a : Bytes) : Type 0 where
  pub not_end : bytes_eq a end_of_options ≡ false
  pub not_flag : bytes_eq a flag ≡ false
  pub not_flag_eq : has_prefix a flag_eq ≡ false

scan_args-append :
    (before rest : List Bytes) → All IsOther before → scan_args (before ++ rest) ≡ scan_args rest
unfolding scan_args
scan_args-append [] rest h = refl
scan_args-append (a ∷ before) rest h = ground (arith, scan_args-append before rest h.1, h.0)

scan_args-none : (args : List Bytes) → All IsOther args → scan_args args ≡ none
unfolding scan_args
scan_args-none [] h = refl
scan_args-none (a ∷ args) h = ground (arith, scan_args-none args h.1, h.0)

-- Behind arguments that are neither the flag nor the end marker: the flag gives the argument after
-- it, or the empty text at the end; the form with `=` gives what stands behind the sign; and after
-- the end marker nothing is read.
extract-first :
    (program : Bytes) (before rest : List Bytes) (value : Bytes)
    → All IsOther before
    → (extract_target_version (program ∷ (before ++ flag ∷ value ∷ rest)) ≡ some value)
      × (extract_target_version (program ∷ (before ++ flag ∷ [])) ≡ some [])
      × (extract_target_version (program ∷ (before ++ (flag_eq ++ value) ∷ rest)) ≡ some value)
      × (extract_target_version (program ∷ (before ++ end_of_options ∷ rest)) ≡ none)
      × (extract_target_version (program ∷ before) ≡ none)
unfolding extract_target_version bytes_eq has_prefix trim_prefix
extract-first program before rest value h = (
  rw (scan_args-append before _ h) refl,
  rw (scan_args-append before _ h) refl,
  rw (scan_args-append before _ h) refl,
  rw (scan_args-append before _ h) refl,
  scan_args-none before h,
)
