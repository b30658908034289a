-- ===== src/Position/Lines.antt =====
-- The line and column of position.go name one offset.
use sql_ai_tools.Prelude.{
  ℕ, zero, suc, ◌+◌, ◌-◌, ◌≤◌, ◌<◌, ◌≡◌, refl, ap, ◌∙◌, sym, [], ◌∷◌, Option, none, some, Bytes,
  arith, length, length-take, take, ◌==◌, if◌then◌else◌,
}
use sql_ai_tools.Text.{has_prefix}
use sql_ai_tools.Position.{here_or_later, count_newlines, last_index, column_of, line_column}

-- The offset at which line `n` starts, lines counted from 0.
pub line_start : Bytes → ℕ → ℕ
line_start s zero = 0
line_start [] (suc n) = 0
line_start (c ∷ s) (suc n) =
    let next = line_start s n in
    let same = line_start s (suc n) in suc (if c == 10 then next else same)

-- What is known of the last newline of a text.
record Newlines (p : Bytes) (k : Option ℕ) (n : ℕ) : Type 0 where
  absent : k ≡ none → n ≡ 0
  present : (i : ℕ) → k ≡ some i → (0 < n) × (i < length p)

Newlines-cons :
    (c : ℕ) (p : Bytes) (k : Option ℕ) (n : ℕ)
    → Newlines p k n
    → Newlines
        (c ∷ p)
        (here_or_later (has_prefix (c ∷ p) (10 ∷ [])) k)
        (if c == 10 then suc n else n)
unfolding has_prefix
Newlines-cons c p none n ih = record {
  absent = λ e. ground (arith, ih.absent);
  present = λ i e. ground (arith, ih.absent);
}
Newlines-cons c p (some j) n ih = record {
  absent = λ e. ground arith;
  present = λ i e. ground (arith, ih.present j);
}

last_index-Newlines : (p : Bytes) → Newlines p (last_index p (10 ∷ [])) (count_newlines p)
unfolding last_index count_newlines has_prefix
last_index-Newlines [] = record { absent = λ e. refl; present = λ i e. cc }
last_index-Newlines (c ∷ p) =
    Newlines-cons c p (last_index p (10 ∷ [])) (count_newlines p) (last_index-Newlines p)

recover_step :
    (c : ℕ) (s : Bytes) (offset n : ℕ) (k : Option ℕ)
    → Newlines (take offset s) k n
    → line_start s n + (column_of k offset - 1) ≡ offset
    → line_start (c ∷ s) (if c == 10 then suc n else n)
        + (column_of (here_or_later (has_prefix (c ∷ take offset s) (10 ∷ [])) k) (suc offset) - 1)
      ≡ suc offset
unfolding line_start column_of has_prefix
recover_step c s offset zero none nl ih = ground (arith, ih)
recover_step c s offset (suc n) none nl ih = absurd (omega (arith, nl.absent refl))
recover_step c s offset zero (some i) nl ih = absurd (omega (arith, nl.present i refl))
recover_step c s offset (suc n) (some i) nl ih =
    ground (arith, ih, nl.present i refl, length-take {0} offset s)

recover :
    (s : Bytes) (offset : ℕ)
    → offset ≤ length s
    → line_start s (count_newlines (take offset s))
        + (column_of (last_index (take offset s) (10 ∷ [])) offset - 1)
      ≡ offset
unfolding count_newlines last_index has_prefix line_start column_of
recover s zero h = omega arith
recover [] (suc offset) h = absurd (omega arith)
recover (c ∷ s) (suc offset) h =
    recover_step c s offset (count_newlines (take offset s)) (last_index (take offset s) (10 ∷ []))
      (last_index-Newlines (take offset s)) (recover s offset (omega arith))

-- The line and the column that are reported for an offset within the text determine it: it stands
-- column - 1 bytes behind the start of the line.
pub line_column_exact :
    (sql : Bytes) (offset : ℕ)
    → offset ≤ length sql
    → let (line, col) = line_column sql offset in line_start sql (line - 1) + (col - 1) ≡ offset
unfolding line_column
line_column_exact sql offset h = ground (arith, recover sql offset h)

-- Two offsets within a text never share a line and a column.
pub line_column-injective :
    (sql : Bytes) (i j : ℕ)
    → i ≤ length sql
    → j ≤ length sql
    → line_column sql i ≡ line_column sql j
    → i ≡ j
line_column-injective sql i j hi hj e =
    sym (line_column_exact sql i hi)
    ∙ ap (λ p. line_start sql (p.0 - 1) + (p.1 - 1)) e
    ∙ line_column_exact sql j hj
