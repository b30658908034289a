-- ===== src/Explain/Lines.antt =====
-- What the parser of explain_parse.go reads in one row.
use sql_ai_tools.Prelude.{
  ℕ, suc, ◌+◌, ◌≡◌, ◌≢◌, ◌⊎◌, inl, inr, refl, sym, ap, ◌∙◌, Bool, true, false, [], ◌∷◌, ◌++◌,
  length, append_assoc, none, some, Bytes, All, ◌==◌, ◌&&◌, ◌||◌, arith, if◌then◌else◌,
}
use sql_ai_tools.Text.{trim_space, trim_left, trim_right, is_space, bytes_eq}
use sql_ai_tools.Text.Laws.{Lacks}
use sql_ai_tools.Explain.{
  is_tree_glyph, trim_blank, blank, operator, prefix_only, content, parse_operator_line,
  find_content, content_row, operator_row, line_row, row_of, cut_colon, trim_both, split_kv,
}
use sql_ai_tools.Explain.Drawn.{Indents, Trimmed, OperatorLine, KeyValue, Filler}
use sql_ai_tools.Explain.Trims.{
  not_empty, right-append, blank-append, blank-right, left-append, left-first, left-space,
}

and_false : (b : Bool) → (b && false) ≡ false
and_false true = refl
and_false false = refl

not_separator : (p : Bytes) (c d : ℕ) (s : Bytes) → bytes_eq (p ++ c ∷ d ∷ s) (183 ∷ []) ≡ false
unfolding bytes_eq
not_separator [] c d s = and_false (c == 183)
not_separator (x ∷ []) c d s = and_false (x == 183)
not_separator (x ∷ y ∷ p) c d s = and_false (x == 183)

not_blank :
    (line : Bytes)
    → line ≢ []
    → bytes_eq (trim_space line) (183 ∷ []) ≡ false
    → line_row line ≡ operator_row line (parse_operator_line 0 line)
unfolding line_row
not_blank [] ne e = absurd (ne refl)
not_blank (c ∷ line) ne e = rw e refl

module _ (pre : Bytes) where
  -- A row whose text begins and ends without white space.
  line-reads :
      (c : ℕ) (d : ℕ) (s : Bytes)
      → trim_left (c ∷ d ∷ s) ≡ c ∷ d ∷ s
      → trim_right (c ∷ d ∷ s) ≡ c ∷ d ∷ s
      → let line = pre ++ c ∷ d ∷ s in row_of line ≡ operator_row line (parse_operator_line 0 line)
  unfolding row_of trim_space
  line-reads c d s left right =
      let line = pre ++ c ∷ d ∷ s in
      let whole : trim_blank line ≡ line =
        blank-append pre (c ∷ d ∷ s) (λ e. cc) (blank-right (c ∷ d ∷ s) right) in
      let (pre', e) = left-append pre (c ∷ d ∷ s) left in
      let trimmed : trim_space line ≡ pre' ++ c ∷ d ∷ s =
        ap trim_right e ∙ right-append pre' (c ∷ d ∷ s) (λ k. cc) right in
      let long : bytes_eq (trim_space line) (183 ∷ []) ≡ false =
        rw trimmed (not_separator pre' c d s) in
      ap line_row whole ∙ not_blank line (not_empty pre (c ∷ d ∷ s) (λ k. cc)) long

glyph-operator :
    (pre op : Bytes) (i : ℕ)
    → All (λ r. is_tree_glyph r ≡ true) pre
    → parse_operator_line i (pre ++ 8226 ∷ 32 ∷ op) ≡ some (i + length pre, trim_space (32 ∷ op))
unfolding parse_operator_line is_tree_glyph
glyph-operator [] op i h = ap (λ (n : ℕ). some (n, trim_space (32 ∷ op))) (omega arith)
glyph-operator (r ∷ pre) op i h =
    let no_bullet : (r == 8226) ≡ false = ground (arith, h.0) in
    rw (no_bullet, h.0)
      (glyph-operator pre op (suc i) h.1
        ∙ ap (λ (n : ℕ). some (n, trim_space (32 ∷ op))) (omega arith))

pair-operator :
    (pre s : Bytes) (c i : ℕ)
    → All (λ r. is_tree_glyph r ≡ true) pre
    → is_tree_glyph c ≡ false
    → (c == 8226) ≡ false
    → parse_operator_line i (pre ++ c ∷ s) ≡ none
unfolding parse_operator_line
pair-operator [] s c i h g b = rw (b, g) refl
pair-operator (r ∷ pre) s c i h g b =
    let no_bullet : (r == 8226) ≡ false = unfold is_tree_glyph in ground (arith, h.0) in
    rw (no_bullet, h.0) (pair-operator pre s c (suc i) h.1 g b)

glyph-content :
    (pre s : Bytes) (c i : ℕ)
    → All (λ r. is_tree_glyph r ≡ true) pre
    → is_tree_glyph c ≡ false
    → find_content i (pre ++ c ∷ s) ≡ some (i + length pre, trim_space (c ∷ s))
unfolding find_content
glyph-content [] s c i h g = rw g (ap (λ (n : ℕ). some (n, trim_space (c ∷ s))) (omega arith))
glyph-content (r ∷ pre) s c i h g = rw h.0 (
    glyph-content pre s c (suc i) h.1 g
    ∙ ap (λ (n : ℕ). some (n, trim_space (c ∷ s))) (omega arith))

-- A space in front of a text is trimmed.
pub trim-spaced : (s : Bytes) → Trimmed s → (trim_space s ≡ s) × (trim_space (32 ∷ s) ≡ s)
unfolding trim_space trim_left
trim-spaced [] h = absurd h
trim-spaced (c ∷ s) (first, right) =
    let whole : trim_space (c ∷ s) ≡ c ∷ s = ap trim_right (left-first c s first) ∙ right in
    (whole, ap trim_right (left-space (c ∷ s)) ∙ whole)

pub Trimmed-right : (s : Bytes) → Trimmed s → (s ≢ []) × (trim_right s ≡ s)
Trimmed-right [] h = absurd h
Trimmed-right (c ∷ s) h = ((λ e. cc), h.1)

pub reads-operator : (c : ℕ) (op raw : Bytes) → OperatorLine c op raw → row_of raw ≡ operator c op
unfolding is_space operator_row
reads-operator c op raw (pre, (glyphs, width), clean, e) =
    let (some_op, right) = Trimmed-right op clean in
    let tail : trim_right (8226 ∷ 32 ∷ op) ≡ 8226 ∷ 32 ∷ op =
      right-append (8226 ∷ 32 ∷ []) op some_op right in
    rw e (
      line-reads pre 8226 32 op (left-first 8226 (32 ∷ op) refl) tail
      ∙ ap (operator_row (pre ++ 8226 ∷ 32 ∷ op)) (glyph-operator pre op 0 glyphs)
      ∙ rw ((trim-spaced op clean).1) (ap (λ n. operator n op) (omega (arith, width))))

cut-key : (k v : Bytes) → Lacks 58 k → cut_colon (k ++ 58 ∷ v) ≡ some (k, v)
unfolding cut_colon
cut-key [] v h = refl
cut-key (c ∷ k) v h = rw (h.0, cut-key k v h.1) refl

content-reads :
    (pre s : Bytes) (col c d : ℕ)
    → Indents col pre
    → is_tree_glyph c ≡ false
    → (c == 8226) ≡ false
    → is_space c ≡ false
    → trim_right (c ∷ d ∷ s) ≡ c ∷ d ∷ s
    → row_of (pre ++ c ∷ d ∷ s) ≡ content col (c ∷ d ∷ s)
unfolding operator_row content_row
content-reads pre s col c d (glyphs, width) glyph bullet first right =
    let line = pre ++ c ∷ d ∷ s in
    let whole = (trim-spaced (c ∷ d ∷ s) (first, right)).0 in
    line-reads pre c d s (left-first c (d ∷ s) first) right
    ∙ ap (operator_row line) (pair-operator pre (d ∷ s) c 0 glyphs glyph bullet)
    ∙ ap content_row (glyph-content pre (d ∷ s) c 0 glyphs glyph)
    ∙ rw whole (ap (λ n. content n (c ∷ d ∷ s)) (omega (arith, width)))

second : (key rest : Bytes) → (d : ℕ) × (s : Bytes) × (key ++ 58 ∷ rest ≡ d ∷ s)
second [] rest = (58, rest, refl)
second (d ∷ key) rest = (d, key ++ 58 ∷ rest, refl)

-- The row of a pair reads as its text, and the text as the pair.
pub reads-pair :
    (c : ℕ) (k v raw : Bytes)
    → KeyValue c k v raw
    → (text : Bytes) × (row_of raw ≡ content c text) × (split_kv text ≡ some (k, v))
unfolding split_kv trim_both
reads-pair c k v raw h =
    let text = h.first ∷ (h.key ++ 58 ∷ 32 ∷ v) in
    let (d, s, e) = second h.key (32 ∷ v) in
    let (some_v, v_right) = Trimmed-right v h.value_trimmed in
    let same : ((h.first ∷ h.key) ++ 58 ∷ 32 ∷ []) ++ v ≡ text =
      append_assoc (h.first ∷ h.key) (58 ∷ 32 ∷ []) v in
    let right : trim_right text ≡ text =
      ap trim_right (sym same)
      ∙ right-append ((h.first ∷ h.key) ++ 58 ∷ 32 ∷ []) v some_v v_right
      ∙ same in
    let split : text ≡ h.first ∷ d ∷ s = ap (λ (r : Bytes). h.first ∷ r) e in
    (
      text,
      rw (h.drawn, e)
          (content-reads h.pre s c h.first d h.indents h.no_glyph h.no_bullet h.key_trimmed.0
            (ap trim_right (sym split) ∙ right ∙ split)),
      rw
          (
            cut-key (h.first ∷ h.key) (32 ∷ v) h.no_colon,
            (trim-spaced (h.first ∷ h.key) h.key_trimmed).0,
            (trim-spaced v h.value_trimmed).1,
            h.is_key,
          )
          refl,
    )

abbrev Glyphs : Bytes → Type 0
Glyphs = All (λ r. is_tree_glyph r ≡ true)

if-Glyphs : (b : Bool) (x y : Bytes) → Glyphs x → Glyphs y → Glyphs (if b then x else y)
if-Glyphs true x y hx hy = hx
if-Glyphs false x y hx hy = hy

-- What the two trims on the right do behind a glyph.
kept-Glyphs :
    (b : Bool) (c : ℕ) (r : Bytes)
    → is_tree_glyph c ≡ true
    → Glyphs r
    → Glyphs (elim r [ [] ↦ if b then [] else c ∷ [] | d ∷ t ↦ c ∷ d ∷ t ])
kept-Glyphs b c [] g h = if-Glyphs b [] (c ∷ []) tt (g, tt)
kept-Glyphs b c (d ∷ t) g h = (g, h)

blank-Glyphs : (s : Bytes) → Glyphs s → Glyphs (trim_blank s)
unfolding trim_blank
blank-Glyphs [] h = tt
blank-Glyphs (c ∷ s) h = kept-Glyphs (c == 32 || c == 9) c (trim_blank s) h.0 (blank-Glyphs s h.1)

left-Glyphs : (s : Bytes) → Glyphs s → Glyphs (trim_left s)
unfolding trim_left
left-Glyphs [] h = tt
left-Glyphs (c ∷ s) h = if-Glyphs (is_space c) (trim_left s) (c ∷ s) (left-Glyphs s h.1) h

right-Glyphs : (s : Bytes) → Glyphs s → Glyphs (trim_right s)
unfolding trim_right
right-Glyphs [] h = tt
right-Glyphs (c ∷ s) h = kept-Glyphs (is_space c) c (trim_right s) h.0 (right-Glyphs s h.1)

Glyphs-separator : (s : Bytes) → Glyphs s → bytes_eq s (183 ∷ []) ≡ false
unfolding bytes_eq is_tree_glyph
Glyphs-separator [] h = refl
Glyphs-separator (c ∷ s) h = let off : (c == 183) ≡ false = ground (arith, h.0) in rw off refl

Glyphs-operator : (s : Bytes) (i : ℕ) → Glyphs s → parse_operator_line i s ≡ none
unfolding parse_operator_line
Glyphs-operator [] i h = refl
Glyphs-operator (r ∷ s) i h =
    let no_bullet : (r == 8226) ≡ false = unfold is_tree_glyph in ground (arith, h.0) in
    rw (no_bullet, h.0) (Glyphs-operator s (suc i) h.1)

Glyphs-content : (s : Bytes) (i : ℕ) → Glyphs s → find_content i s ≡ none
unfolding find_content
Glyphs-content [] i h = refl
Glyphs-content (r ∷ s) i h = rw h.0 (Glyphs-content s (suc i) h.1)

Glyphs-reads : (s : Bytes) → Glyphs s → (line_row s ≡ blank) ⊎ (line_row s ≡ prefix_only)
unfolding line_row operator_row content_row trim_space
Glyphs-reads [] h = inl refl
Glyphs-reads (c ∷ s) h =
    let line = c ∷ s in
    inr (
      rw
        (
          Glyphs-separator (trim_space line) (right-Glyphs (trim_left line) (left-Glyphs line h)),
          Glyphs-operator line 0 h,
          Glyphs-content line 0 h,
        )
        refl)

pub reads-Filler : (raw : Bytes) → Filler raw → (row_of raw ≡ blank) ⊎ (row_of raw ≡ prefix_only)
unfolding row_of line_row trim_blank
reads-Filler raw (inl h) = Glyphs-reads (trim_blank raw) (blank-Glyphs raw h)
reads-Filler raw (inr e) = inl (rw e refl)
