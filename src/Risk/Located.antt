-- ===== src/Risk/Located.antt =====
-- Where `positionFromSQL` finds the statements of a text.
use sql_ai_tools.Prelude.{
  ℕ, zero, suc, ◌+◌, ◌-◌, ◌≤◌, ◌<◌, ◌≡◌, refl, sym, ap, ◌∙◌, inl, inr, Bool, true, false, List, [],
  ◌∷◌, Option, none, some, arith, Bytes, length, take, drop, length-drop, Bool-cases, ltb, ◌>>=◌,
  ◌++◌,
}
use sql_ai_tools.Text.{has_prefix, first_index, index}
use sql_ai_tools.Position.{
  Position, position_at, line_column, clamp, count_newlines, column_of, last_index,
}
use sql_ai_tools.Risk.{Finding, Rule, placed, position_from_sql, run_rules, check_statements}
use sql_ai_tools.Risk.Tree.{Statement}

-- What `strings.Index` is known to give.
abbrev FirstAt : Bytes → Bytes → Option ℕ → Type 0
FirstAt s t none = (k : ℕ) → k ≤ length s → has_prefix (drop k s) t ≡ false
FirstAt s t (some i) =
    (has_prefix (drop i s) t ≡ true)
    × (i + length t ≤ length s)
    × ((k : ℕ) → k < i → has_prefix (drop k s) t ≡ false)

has_prefix-length : (s t : Bytes) → has_prefix s t ≡ true → length t ≤ length s
unfolding has_prefix
has_prefix-length [] [] h = omega arith
has_prefix-length (c ∷ s) [] h = omega arith
has_prefix-length [] (d ∷ t) h = absurd cc
has_prefix-length (c ∷ s) (d ∷ t) h = ground (arith, h, has_prefix-length s t)

first_index-FirstAt :
    (c : ℕ) (s t : Bytes) (b : Bool) (o : Option ℕ)
    → has_prefix (c ∷ s) t ≡ b
    → FirstAt s t o
    → FirstAt (c ∷ s) t (first_index b o)
first_index-FirstAt c s t true o e h =
    (e, omega (arith, has_prefix-length (c ∷ s) t e), λ k lt. absurd (omega (arith, lt)))
first_index-FirstAt c s t false none e h = none_here
  where
    none_here : (k : ℕ) → k ≤ suc (length s) → has_prefix (drop k (c ∷ s)) t ≡ false
    none_here zero le = e
    none_here (suc k) le = h k (omega (arith, le))
first_index-FirstAt c s t false (some i) e h = (h.0, omega (arith, h.1), before)
  where
    before : (k : ℕ) → k < suc i → has_prefix (drop k (c ∷ s)) t ≡ false
    before zero lt = e
    before (suc k) lt = h.2 k (omega (arith, lt))

first_index-nil : (t : Bytes) (b : Bool) → has_prefix [] t ≡ b → FirstAt [] t (first_index b none)
first_index-nil t true e =
    (e, omega (arith, has_prefix-length [] t e), λ k lt. absurd (omega (arith, lt)))
first_index-nil t false e = none_here
  where
    none_here : (k : ℕ) → k ≤ 0 → has_prefix (drop k []) t ≡ false
    none_here zero le = e
    none_here (suc k) le = absurd (omega (arith, le))

index-FirstAt : (s t : Bytes) → FirstAt s t (index s t)
unfolding index
index-FirstAt [] t = first_index-nil t (has_prefix [] t) refl
index-FirstAt (c ∷ s) t =
    first_index-FirstAt c s t (has_prefix (c ∷ s) t) (index s t) refl (index-FirstAt s t)

drop-nil : (n : ℕ) → drop {A = ℕ} n [] ≡ []
drop-nil zero = refl
drop-nil (suc n) = refl

drop-drop : (o k n : ℕ) (s : Bytes) → k + o ≡ n → drop k (drop o s) ≡ drop n s
drop-drop zero k n s e = ap (λ m. drop m s) (omega (arith, e))
drop-drop (suc o) k n [] e = drop-nil k ∙ sym (drop-nil n)
drop-drop (suc o) k zero (c ∷ s) e = absurd (omega (arith, e))
drop-drop (suc o) k (suc n) (c ∷ s) e = drop-drop o k n s (omega (arith, e))

-- The positions of statements, from an offset on. A statement that occurs in the rest of the text is
-- put at its first occurrence there, with the line and the column of that offset, and the search goes
-- on behind it; one that does not is put at line 1, column 1, and the search goes on where it was.
pub data Chain (full : Bytes) : ℕ → List Statement → List Position → Type 0 where
  done : {offset : ℕ} → Chain full offset [] []
  found :
      {offset : ℕ} {stmt : Statement} {stmts : List Statement} {ps : List Position} (at : ℕ)
      → offset ≤ at
      → at + length stmt.sql ≤ length full
      → has_prefix (drop at full) stmt.sql ≡ true
      → ((k : ℕ) → offset ≤ k → k < at → has_prefix (drop k full) stmt.sql ≡ false)
      → Chain full (at + length stmt.sql) stmts ps
      → Chain full offset (stmt ∷ stmts) (position_at full at ∷ ps)
  absent :
      {offset : ℕ} {stmt : Statement} {stmts : List Statement} {ps : List Position}
      → ((k : ℕ) → offset ≤ k → k ≤ length full → has_prefix (drop k full) stmt.sql ≡ false)
      → Chain full offset stmts ps
      → Chain full offset
          (stmt ∷ stmts)
          (record { line = 1; column = 1; byte_offset = offset } ∷ ps)

position_at-within :
    (full : Bytes) (at : ℕ)
    → at ≤ length full
    → position_at full at ≡ record {
      line = count_newlines (take at full) + 1;
      column = column_of (last_index (take at full) (10 ∷ [])) at;
      byte_offset = at;
    }
unfolding position_at line_column clamp
position_at-within full at h = elim (Bool-cases (ltb (length full) at)) [
  | inl b ↦ absurd (ground (arith, b, h))
  | inr b ↦ rw b refl
]

-- What follows from the result of the search in the rest of the text.
placed-Chain :
    (full : Bytes) (offset : ℕ) (stmt : Statement) (stmts : List Statement) (ps : List Position)
    (o : Option ℕ)
    → offset ≤ length full
    → FirstAt (drop offset full) stmt.sql o
    → Chain full (placed full stmt.sql offset o).1 stmts ps
    → Chain full offset (stmt ∷ stmts) ((placed full stmt.sql offset o).0 ∷ ps)
unfolding placed
placed-Chain full offset stmt stmts ps none le h c =
    absent
      (λ k ge below.
        ap (λ t. has_prefix t stmt.sql)
          (sym (drop-drop offset (k - offset) k full (omega (arith, ge))))
        ∙ h (k - offset) (omega (arith, ge, below, length-drop {0} offset full)))
      c
placed-Chain full offset stmt stmts ps (some i) le h c =
    rw
      (← position_at-within full (offset + i) (omega (arith, h.1, le, length-drop {0} offset full)))
      (found (offset + i) (omega arith) (omega (arith, h.1, le, length-drop {0} offset full))
        (ap (λ t. has_prefix t stmt.sql) (sym (drop-drop offset i (offset + i) full (omega arith)))
          ∙ h.0)
        (λ k ge below.
          ap (λ t. has_prefix t stmt.sql)
            (sym (drop-drop offset (k - offset) k full (omega (arith, ge))))
          ∙ h.2 (k - offset) (omega (arith, ge, below)))
        c)

placed-next :
    (full t : Bytes) (offset : ℕ) (o : Option ℕ)
    → offset ≤ length full
    → FirstAt (drop offset full) t o
    → (placed full t offset o).1 ≤ length full
unfolding placed
placed-next full t offset none le h = le
placed-next full t offset (some i) le h = omega (arith, h.1, le, length-drop {0} offset full)

abbrev positions_of : Option (List Finding × List Position) → List Position
positions_of none = []
positions_of (some (fs, ps)) = ps

abbrev joined_one :
    List Finding → Position → List Finding × List Position → Option (List Finding × List Position)
joined_one now at rest = some (now ++ rest.0, at ∷ rest.1)

-- What a result of the loop says of the rest of the loop.
joined :
    (a : Option (List Finding)) (b : Option (List Finding × List Position)) (at : Position)
    (fs : List Finding) (ps : List Position)
    → (a >>= (λ now. b >>= (λ rest. joined_one now at rest))) ≡ some (fs, ps)
    → (gs : List Finding) × (qs : List Position) × (b ≡ some (gs, qs)) × (ps ≡ at ∷ qs)
joined none b at fs ps e = absurd cc
joined (some now) none at fs ps e = absurd cc
joined (some now) (some (gs, qs)) at fs ps e = (gs, qs, refl, sym (ap positions_of e))

check_statements-from :
    (rules : List Rule) (sql : Bytes) (offset : ℕ) (stmts : List Statement) (fs : List Finding)
    (ps : List Position)
    → offset ≤ length sql
    → check_statements rules sql offset stmts ≡ some (fs, ps)
    → Chain sql offset stmts ps
unfolding check_statements position_from_sql
check_statements-from rules sql offset [] fs ps le e =
    let none_left : [] ≡ ps = ap positions_of e in rw (← none_left) done
check_statements-from rules sql offset (stmt ∷ stmts) fs ps le e =
    let place = position_from_sql sql stmt.sql offset in
    let o = index (drop offset sql) stmt.sql in
    let first = index-FirstAt (drop offset sql) stmt.sql in
    let (gs, qs, e', front) =
      joined (run_rules rules (record { ast = stmt.ast; stmt_sql = stmt.sql; position = place.0 }))
        (check_statements rules sql place.1 stmts) place.0 fs ps e in
    let rest =
      check_statements-from rules sql place.1 stmts gs qs
        (placed-next sql stmt.sql offset o le first) e' in
    rw front (placed-Chain sql offset stmt stmts qs o le first rest)

-- The positions that an analysis computes for the statements of a text: they do not overlap, each is
-- the first place behind the one before where the statement's text stands, and line and column are
-- those of internal/diag for the same offset. A statement whose text does not stand there any more is at
-- line 1 and column 1, with the offset that the search began at.
pub check_statements-Chain :
    (rules : List Rule) (sql : Bytes) (stmts : List Statement) (fs : List Finding)
    (ps : List Position)
    → check_statements rules sql 0 stmts ≡ some (fs, ps)
    → Chain sql 0 stmts ps
check_statements-Chain rules sql stmts fs ps e =
    check_statements-from rules sql 0 stmts fs ps (omega arith) e
