-- ===== src/Route/Quarter/Validity.antt =====
-- Every parser of quarter.go returns a quarter in range.
use sql_ai_tools.Prelude.{
  ℕ, suc, ◌-◌, ◌<◌, ◌≡◌, ◌⊎◌, inl, inr, ◌>>=◌, false, List, ◌∷◌, Option, none, some, Bytes, arith,
  take, drop, length,
}
use sql_ai_tools.Prelude.Int.{ℤ, pos}
use sql_ai_tools.Text.Decimal.{atoi}
use sql_ai_tools.Route.Quarter.{
  Quarter, make_quarter, is_zero, quarter_of, first_two, parse_from_target, tag_parts, parse_tag,
  fork_parts, parse_fork_version,
}

-- The invariant that the comment on `Quarter` states: a year from 1 on, an ordinal in 1..4.
pub record IsValid (quarter : Quarter) : Type 0 where
  pub y : ℕ
  pub k : ℕ
  pub year_eq : quarter.year ≡ pos (suc y)
  pub q_eq : quarter.q ≡ pos (suc k)
  pub ordinal : k < 4

make_quarter-IsValid :
    (year q : ℤ) (quarter : Quarter) → make_quarter year q ≡ some quarter → IsValid quarter
unfolding make_quarter
make_quarter-IsValid (pos (suc y)) (pos (suc k)) quarter h = record {
  y = y;
  k = k;
  year_eq = ground arith;
  q_eq = ground arith;
  ordinal = ground arith;
}
make_quarter-IsValid _ _ quarter h = absurd (ground arith)

quarter_of-IsValid :
    (a b : Bytes) (quarter : Quarter) → quarter_of a b ≡ some quarter → IsValid quarter
unfolding quarter_of
quarter_of-IsValid a b quarter h = from (atoi a) (atoi b) h
  where
    from :
        (x y : Option ℤ)
        → (x >>= λ year. y >>= λ q. make_quarter year q) ≡ some quarter
        → IsValid quarter
    from none y e = cc
    from (some year) none e = cc
    from (some year) (some q) e = make_quarter-IsValid year q quarter e

first_two-IsValid :
    (parts : List Bytes) (quarter : Quarter) → first_two parts ≡ some quarter → IsValid quarter
unfolding first_two
first_two-IsValid (a ∷ b ∷ rest) quarter h = quarter_of-IsValid a b quarter h
first_two-IsValid _ quarter h = cc

fork_parts-IsValid :
    (parts : List Bytes) (quarter : Quarter) → fork_parts parts ≡ some quarter → IsValid quarter
unfolding fork_parts
fork_parts-IsValid (a ∷ b ∷ c ∷ rest) quarter h = quarter_of-IsValid b _ quarter h
fork_parts-IsValid _ quarter h = cc

tag_parts-IsValid : (s : Bytes) (quarter : Quarter) → tag_parts s ≡ some quarter → IsValid quarter
unfolding tag_parts
tag_parts-IsValid s quarter h = quarter_of-IsValid _ _ quarter (long_enough s quarter h)
  where
    long_enough :
        (s : Bytes) (quarter : Quarter)
        → tag_parts s ≡ some quarter
        → quarter_of (take (length s - 1) s) (drop (length s - 1) s) ≡ some quarter
    long_enough s quarter h = ground arith

parse_from_target-IsValid :
    (s : Bytes) (quarter : Quarter) → parse_from_target s ≡ some quarter → IsValid quarter
unfolding parse_from_target
parse_from_target-IsValid s quarter h = first_two-IsValid _ quarter h

pub parse_tag-IsValid :
    (s : Bytes) (quarter : Quarter) → parse_tag s ≡ some quarter → IsValid quarter
unfolding parse_tag
parse_tag-IsValid s quarter h = tag_parts-IsValid _ quarter h

parse_fork_version-IsValid :
    (s : Bytes) (quarter : Quarter) → parse_fork_version s ≡ some quarter → IsValid quarter
unfolding parse_fork_version
parse_fork_version-IsValid s quarter h = fork_parts-IsValid _ quarter h

pub not_is_zero : (quarter : Quarter) → IsValid quarter → is_zero quarter ≡ false
unfolding is_zero
not_is_zero quarter v = ground (arith, v.year_eq)

-- Whatever text they are given, the three parsers return only quarters with a year from 1 on and an
-- ordinal in 1..4; none returns the zero quarter.
parsers-IsValid :
    (s : Bytes) (quarter : Quarter)
    → (parse_from_target s ≡ some quarter)
      ⊎ (parse_tag s ≡ some quarter)
      ⊎ (parse_fork_version s ≡ some quarter)
    → IsValid quarter × (is_zero quarter ≡ false)
parsers-IsValid s quarter h = let v = valid h in (v, not_is_zero quarter v)
  where
    valid :
        (parse_from_target s ≡ some quarter)
          ⊎ (parse_tag s ≡ some quarter)
          ⊎ (parse_fork_version s ≡ some quarter)
        → IsValid quarter
    valid (inl e) = parse_from_target-IsValid s quarter e
    valid (inr (inl e)) = parse_tag-IsValid s quarter e
    valid (inr (inr e)) = parse_fork_version-IsValid s quarter e
