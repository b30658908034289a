-- ===== src/Route/Quarter.antt =====
-- internal/versionroute/quarter.go: quarters, their printed forms and their parsers. A result
-- `(q, ok)` is an option; the texts of `MakeQuarter`'s errors reach no caller and are left out.
pub mod RoundTrip
pub mod Validity
use sql_ai_tools.Prelude.{
  ℕ, zero, suc, ◌+◌, ◌-◌, ◌≤◌, ◌<◌, Bool, true, false, ◌&&◌, ◌||◌, List, [], ◌∷◌, ◌++◌, Option,
  none, some, ◌>>=◌, Bytes, codes, length, take, drop, ltb, leb, ◌==◌, if◌then◌else◌,
}
use sql_ai_tools.Prelude.Int.{ℤ, pos, negsuc}
use sql_ai_tools.Text.{trim_prefix, trim_space, split}
use sql_ai_tools.Text.Decimal.{atoi, itoa}

pub record Quarter : Type 0 where
  pub year : ℤ
  pub q : ℤ

-- `Quarter{}`, the sentinel for "no quarter known".
abbrev pub zero_quarter : Quarter
zero_quarter = record { year = pos 0; q = pos 0 }

-- `n < 1` and `4 < n`.
below_one : ℤ → Bool
below_one (pos n) = n == 0
below_one (negsuc n) = true

above_four : ℤ → Bool
above_four (pos n) = ltb 4 n
above_four (negsuc n) = false

unfoldable pub make_quarter : ℤ → ℤ → Option Quarter
unfolding below_one above_four
make_quarter year q =
    if below_one year
    then none
    else if below_one q || above_four q
    then none
    else some (record { year = year; q = q })

int_is_zero : ℤ → Bool
int_is_zero (pos n) = n == 0
int_is_zero (negsuc n) = false

unfoldable pub is_zero : Quarter → Bool
unfolding int_is_zero
is_zero quarter = int_is_zero quarter.year && int_is_zero quarter.q

-- `Quarter.String`.
unfoldable pub string : Quarter → Bytes
unfolding is_zero
string quarter =
    if is_zero quarter then codes "unknown" else itoa quarter.year ++ (b'.' ∷ itoa quarter.q)

-- `Quarter.Tag`.
unfoldable pub tag : Quarter → Bytes
unfolding is_zero
tag quarter = if is_zero quarter then [] else b'v' ∷ (itoa quarter.year ++ itoa quarter.q)

unfoldable pub backend_name : Quarter → Bytes
unfolding is_zero tag
backend_name quarter =
    if is_zero quarter then codes "crdb-sql" else codes "crdb-sql-" ++ tag quarter

-- `Atoi` of two texts, then `MakeQuarter`.
unfoldable pub quarter_of : Bytes → Bytes → Option Quarter
unfolding make_quarter
quarter_of year_str q_str = do year ← atoi year_str; q ← atoi q_str; make_quarter year q

first_two : List Bytes → Option Quarter
unfolding quarter_of
first_two (year_str ∷ q_str ∷ rest) = quarter_of year_str q_str
first_two _ = none

-- `ParseFromTarget`.
unfoldable pub parse_from_target : Bytes → Option Quarter
unfolding first_two
parse_from_target s = first_two (split b'.' (trim_prefix (trim_space s) (codes "v")))

-- `s[:len(s)-1]` and `s[len(s)-1:]` of a text with two bytes at least.
tag_parts : Bytes → Option Quarter
unfolding quarter_of
tag_parts s =
    if ltb (length s) 2 then none else quarter_of (take (length s - 1) s) (drop (length s - 1) s)

-- `ParseTag`.
unfoldable pub parse_tag : Bytes → Option Quarter
unfolding tag_parts
parse_tag s = tag_parts (trim_prefix s (codes "v"))

-- `qStr[:idx]` for the first index of a byte among `-` and `+`, if there is one.
unfoldable pub before_suffix : Bytes → Bytes
before_suffix [] = []
before_suffix (c ∷ s) =
    let rest = before_suffix s in if c == b'-' || c == b'+' then [] else c ∷ rest

fork_parts : List Bytes → Option Quarter
unfolding quarter_of before_suffix
fork_parts (api ∷ year_str ∷ q_str ∷ rest) = quarter_of year_str (before_suffix q_str)
fork_parts _ = none

-- `parseForkVersion`.
unfoldable pub parse_fork_version : Bytes → Option Quarter
unfolding fork_parts
parse_fork_version ver = fork_parts (split b'.' (trim_prefix ver (codes "v")))
