-- ===== src/Shape/RoundTrip.antt =====
-- explain_ddl_parse.go reads back the text of a plan.
use sql_ai_tools.Prelude.{
  ℕ, ◌≡◌, ◌≢◌, refl, ap, ◌∙◌, Bool, true, false, not, ◌&&◌, List, [], ◌∷◌, ◌++◌, Bytes, All,
  All-append, codes, ◌==◌, arith, append_assoc, append-nil,
}
use sql_ai_tools.Text.{trim_suffix, split, trim_right, is_space, bytes_eq}
use sql_ai_tools.Text.Laws.{Lacks, trim_prefix-append, split-Lacks, split-append}
use sql_ai_tools.Explain.Trims.{right-tail, not_empty as nonempty}
use sql_ai_tools.Explain.Lines.{Trimmed-right}
use sql_ai_tools.Shape.{
  DdlOperation, shape, ddl_plan_header_prefix, trim_newlines, header_statement, shape_of,
  shape_lines, parse_explain_ddl_shape,
}
use sql_ai_tools.Shape.Rendered.{
  OneLine, OneLiners, indent, connector, DrawsTargets, no_targets, target, DrawsOperations,
  no_operations, operation, rows-read,
}

-- Each line behind the first one, with the newline in front of it.
abbrev pub following : List Bytes → Bytes
following [] = []
following (r ∷ rows) = 10 ∷ (r ++ following rows)

abbrev pub header_row : Bytes → Bytes
header_row statement = ddl_plan_header_prefix ++ (statement ++ codes ";")

-- The text of EXPLAIN (DDL, SHAPE).
abbrev pub plan_text : Bytes → List Bytes → Bytes
plan_text statement rows = (header_row statement ++ following rows) ++ 10 ∷ []

newlines-cons : (x : ℕ) (t : Bytes) → t ≢ [] → trim_newlines t ≡ t → trim_newlines (x ∷ t) ≡ x ∷ t
unfolding trim_newlines
newlines-cons x [] ne h = absurd (ne refl)
newlines-cons x (d ∷ t) ne h = ground (arith, h)

newlines-append : (xs s : Bytes) → s ≢ [] → trim_newlines s ≡ s → trim_newlines (xs ++ s) ≡ xs ++ s
newlines-append [] s ne h = h
newlines-append (x ∷ xs) s ne h =
    newlines-cons x (xs ++ s) (nonempty xs s ne) (newlines-append xs s ne h)

newlines-right : (s : Bytes) → trim_right s ≡ s → trim_newlines s ≡ s
unfolding trim_newlines trim_right is_space
newlines-right [] h = refl
newlines-right (c ∷ []) h = ground (arith, h)
newlines-right (c ∷ d ∷ t) h =
    newlines-cons c (d ∷ t) (λ e. cc) (newlines-right (d ∷ t) (right-tail c d t h))

newlines-last : (xs : Bytes) → trim_newlines (xs ++ 10 ∷ []) ≡ trim_newlines xs
unfolding trim_newlines
newlines-last [] = refl
newlines-last (x ∷ xs) = rw (newlines-last xs) refl

-- A line that is not empty and does not end with a newline.
abbrev Ends : Bytes → Type 0
Ends s = (s ≢ []) × (trim_newlines s ≡ s)

following-Ends :
    (first : Bytes) (rows : List Bytes)
    → Ends first
    → All Ends rows
    → Ends (first ++ following rows)
following-Ends first [] h hs = rw (append-nil first) h
following-Ends first (r ∷ rows) h hs =
    let (some_rest, rest) = following-Ends r rows hs.0 hs.1 in
    rw (← append_assoc first (10 ∷ []) (r ++ following rows)) (
      nonempty (first ++ 10 ∷ []) (r ++ following rows) some_rest,
      newlines-append (first ++ 10 ∷ []) (r ++ following rows) some_rest rest,
    )

split-following :
    (first : Bytes) (rows : List Bytes)
    → Lacks 10 first
    → All (Lacks 10) rows
    → split 10 (first ++ following rows) ≡ first ∷ rows
split-following first [] h hs = rw (append-nil first) (split-Lacks 10 first h)
split-following first (r ∷ rows) h hs =
    split-append 10 first (r ++ following rows) h
    ∙ ap (λ (xs : List Bytes). first ∷ xs) (split-following r rows hs.0 hs.1)

-- What a row of the plan is.
record IsRow (r : Bytes) : Type 0 where
  ends : Ends r
  lacks : Lacks 10 r

text-IsRow : (pre s : Bytes) → Lacks 10 pre → OneLine s → IsRow (pre ++ s)
text-IsRow pre s h (clean, lacks) =
    let (some_s, right) = Trimmed-right s clean in
    record {
      ends = (nonempty pre s some_s, newlines-append pre s some_s (newlines-right s right));
      lacks = All-append (λ c. (c == 10) ≡ false) pre s h lacks;
    }

connector-Lacks : (b : Bool) → Lacks 10 (connector b)
connector-Lacks false = (refl, (refl, (refl, (refl, tt))))
connector-Lacks true = (refl, (refl, (refl, (refl, tt))))

indent-Lacks : (d : Bool) → Lacks 10 (indent d)
indent-Lacks false = (refl, (refl, (refl, (refl, (refl, (refl, tt))))))
indent-Lacks true = (refl, (refl, (refl, (refl, (refl, (refl, tt))))))

targets-IsRow : (ts rows : List Bytes) → DrawsTargets ts rows → All OneLine ts → All IsRow rows
targets-IsRow _ _ no_targets h = tt
targets-IsRow _ _ (target d b t ts rows drawn) h = (
  text-IsRow (indent d ++ connector b) t
      (All-append (λ c. (c == 10) ≡ false) (indent d) (connector b) (indent-Lacks d)
        (connector-Lacks b))
      h.0,
  targets-IsRow ts rows drawn h.1,
)

rows-IsRow :
    (ops : List DdlOperation) (rows : List Bytes)
    → DrawsOperations ops rows
    → All OneLiners ops
    → All IsRow rows
rows-IsRow _ _ no_operations h = tt
rows-IsRow _ _ (operation b o ops here later drawn rest) h = (
  text-IsRow (32 ∷ connector b) o.op (refl, connector-Lacks b) h.0.0,
  All-append IsRow here later (targets-IsRow o.targets here drawn h.0.1)
      (rows-IsRow ops later rest h.1),
)

rows-Ends : (rows : List Bytes) → All IsRow rows → All Ends rows
rows-Ends [] h = tt
rows-Ends (r ∷ rows) h = (h.0.ends, rows-Ends rows h.1)

rows-Lacks : (rows : List Bytes) → All IsRow rows → All (Lacks 10) rows
rows-Lacks [] h = tt
rows-Lacks (r ∷ rows) h = (h.0.lacks, rows-Lacks rows h.1)

and_false : (b : Bool) → (b && false) ≡ false
and_false true = refl
and_false false = refl

trim_suffix-last : (s : Bytes) → trim_suffix (s ++ 59 ∷ []) (59 ∷ []) ≡ s
unfolding trim_suffix bytes_eq
trim_suffix-last [] = refl
trim_suffix-last (c ∷ []) = rw (and_false (c == 59)) refl
trim_suffix-last (c ∷ d ∷ s) =
    rw (and_false (c == 59)) (ap (λ (r : Bytes). c ∷ r) (trim_suffix-last (d ∷ s)))

header_read : (statement : Bytes) → header_statement (header_row statement) ≡ statement
unfolding header_statement
header_read statement =
    ap (λ (s : Bytes). trim_suffix s (codes ";"))
      (trim_prefix-append ddl_plan_header_prefix (statement ++ codes ";"))
    ∙ trim_suffix-last statement

no_newline : Bytes → Bool
no_newline [] = true
no_newline (c ∷ s) = not (c == 10) && no_newline s

no_newline-Lacks : (s : Bytes) → no_newline s ≡ true → Lacks 10 s
unfolding no_newline
no_newline-Lacks [] h = tt
no_newline-Lacks (c ∷ s) h = (ground (arith, h), no_newline-Lacks s (ground (arith, h)))

header-IsRow : (statement : Bytes) → Lacks 10 statement → IsRow (header_row statement)
unfolding trim_newlines no_newline
header-IsRow statement h = record {
  ends = (
    nonempty ddl_plan_header_prefix (statement ++ codes ";")
        (nonempty statement (codes ";") (λ e. cc)),
    newlines-append ddl_plan_header_prefix (statement ++ codes ";")
        (nonempty statement (codes ";") (λ e. cc))
        (newlines-append statement (codes ";") (λ e. cc) refl),
  );
  lacks =
      All-append (λ c. (c == 10) ≡ false) ddl_plan_header_prefix (statement ++ codes ";")
        (no_newline-Lacks ddl_plan_header_prefix refl)
        (All-append (λ c. (c == 10) ≡ false) statement (codes ";") h (refl, tt));
}

-- The text of a plan is read as its statement and its operations, each with its targets, in order: with
-- either connector on each line, and the targets behind the bar or, as under the last operation, behind
-- six spaces. The statement has no newline, and operations and targets are of one line, not empty and
-- without white space around them.
pub parse_explain_ddl_shape-text :
    (statement : Bytes) (ops : List DdlOperation) (rows : List Bytes)
    → Lacks 10 statement
    → DrawsOperations ops rows
    → All OneLiners ops
    → parse_explain_ddl_shape (plan_text statement rows) ≡ shape statement ops
unfolding parse_explain_ddl_shape shape_of
parse_explain_ddl_shape-text statement ops rows h drawn hs =
    let head = header_row statement in
    let first = header-IsRow statement h in
    let each = rows-IsRow ops rows drawn hs in
    let (ne, whole) = following-Ends head rows first.ends (rows-Ends rows each) in
    let lines : split 10 (trim_newlines (plan_text statement rows)) ≡ head ∷ rows =
      ap (split 10) (newlines-last (head ++ following rows) ∙ whole)
      ∙ split-following head rows first.lacks (rows-Lacks rows each) in
    ap shape_of lines
    ∙ ap (λ (s : Bytes). shape_lines 2 s rows []) (header_read statement)
    ∙ rows-read 2 statement ops rows [] drawn hs
