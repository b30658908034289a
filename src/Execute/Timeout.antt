-- ===== src/Execute/Timeout.antt =====
-- The timeout that the tool execute_sql sets.
use sql_ai_tools.Prelude.{
  ℕ, zero, suc, ◌*◌, ◌/◌, ◌%◌, ◌^◌, ◌<◌, ◌≤◌, ◌≡◌, refl, true, false, some, none, Option, ltb,
  arith,
}
use sql_ai_tools.Prelude.Int.{ℤ, pos}
use sql_ai_tools.Execute.Arguments.{
  Number, number, Value, got, scaled, resolve_statement_timeout, with_statement_timeout,
  milliseconds, default_statement_timeout,
}

in_range : (n : ℕ) → n ≤ 9223372036854 → n * 1000000 % 2 ^ 64 ≡ n * 1000000
in_range n le = omega (arith, le)

back : (n : ℕ) → n * 1000000 / 1000000 ≡ n
back n = omega arith

scaled_exact : (n : ℕ) → n ≤ 9223372036854 → scaled (pos n) ≡ pos (n * 1000000)
scaled_exact n le =
    let small : ltb (n * 1000000) (2 ^ 63) ≡ true = ground (arith, le) in
    rw (in_range n le, small) refl

kept_positive : (d : ℕ) → 0 < d → with_statement_timeout (pos d) ≡ pos d
unfolding with_statement_timeout
kept_positive zero h = absurd (omega (arith, h))
kept_positive (suc d) h = refl

shown : (n : ℕ) → milliseconds (with_statement_timeout (pos (suc n * 1000000))) ≡ suc n
shown n = rw (kept_positive (suc n * 1000000) (omega arith)) (back (suc n))

-- The milliseconds that the transaction sets for the argument.
abbrev pub Sets : Option Value → ℕ → Type 0
Sets v ms =
    (d : ℤ) × (resolve_statement_timeout v ≡ got d) × (milliseconds (with_statement_timeout d) ≡ ms)

-- What an argument asks for, in milliseconds: 30 seconds without one, with one that is not positive and
-- with a fraction of a millisecond, and else its whole part, up to the longest duration.
pub data Asks : Option Value → ℕ → Type 0 where
  absent : Asks none 30000
  not_positive : (x : Number) → x.above_zero ≡ false → Asks (some (number x)) 30000
  fraction : (x : Number) → x.above_zero ≡ true → x.whole ≡ pos 0 → Asks (some (number x)) 30000
  given :
      (x : Number) (n : ℕ)
      → x.above_zero ≡ true
      → x.whole ≡ pos (suc n)
      → suc n ≤ 9223372036854
      → Asks (some (number x)) (suc n)

-- An argument of 1 to 9223372036854 milliseconds is set as its whole part, and without an argument, or
-- with a number that is not positive or below 1, 30 seconds are set.
pub timeout_set : (v : Option Value) (ms : ℕ) → Asks v ms → Sets v ms
unfolding resolve_statement_timeout with_statement_timeout
timeout_set _ _ absent = (default_statement_timeout, refl, refl)
timeout_set _ _ (not_positive x b) = (default_statement_timeout, rw b refl, refl)
timeout_set _ _ (fraction x b e) = (pos 0, rw (b, e) refl, refl)
timeout_set _ _ (given x n b e le) =
    (pos (suc n * 1000000), rw (b, e, scaled_exact (suc n) le) refl, shown n)
