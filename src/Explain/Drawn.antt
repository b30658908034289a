-- ===== src/Explain/Drawn.antt =====
-- How a plan is drawn as the rows of EXPLAIN.
use sql_ai_tools.Prelude.{
  ℕ, suc, ◌<◌, ◌≡◌, ◌⊎◌, true, false, List, [], ◌∷◌, ◌++◌, length, Bytes, All, ◌==◌,
}
use sql_ai_tools.Text.{is_space, trim_right}
use sql_ai_tools.Text.Laws.{Lacks}
use sql_ai_tools.Explain.{Attr, Forest, node, nil, cons, put_attr, is_tree_glyph}

-- Glyphs of the tree up to the column.
abbrev pub Indents : ℕ → Bytes → Type 0
Indents col pre = All (λ r. is_tree_glyph r ≡ true) pre × (length pre ≡ col)

-- A text that is not empty, without white space around it.
abbrev pub Trimmed : Bytes → Type 0
Trimmed [] = ⊥
Trimmed (c ∷ s) = (is_space c ≡ false) × (trim_right (c ∷ s) ≡ c ∷ s)

-- The row of an operator: its bullet at the column, a space and its name.
abbrev pub OperatorLine : ℕ → Bytes → Bytes → Type 0
OperatorLine col op raw =
    (pre : Bytes) × Indents col pre × Trimmed op × (raw ≡ pre ++ 8226 ∷ 32 ∷ op)

-- The row of a pair: the key at the column, a colon, a space and the value. The key begins with
-- neither a glyph nor a bullet.
pub record KeyValue (col : ℕ) (k v raw : Bytes) : Type 0 where
  pub pre : Bytes
  pub first : ℕ
  pub key : Bytes
  pub indents : Indents col pre
  pub is_key : k ≡ first ∷ key
  pub no_glyph : is_tree_glyph first ≡ false
  pub no_bullet : (first == 8226) ≡ false
  pub no_colon : Lacks 58 (first ∷ key)
  pub key_trimmed : Trimmed (first ∷ key)
  pub value_trimmed : Trimmed v
  pub drawn : raw ≡ pre ++ first ∷ (key ++ 58 ∷ 32 ∷ v)

-- A row of glyphs alone, and the separator.
abbrev pub Filler : Bytes → Type 0
Filler raw = All (λ r. is_tree_glyph r ≡ true) raw ⊎ (raw ≡ 183 ∷ [])

-- Pairs, each of them added to those before it.
pub data DrawsPairs (col : ℕ → Type 0) : List Attr → List Attr → List Bytes → Type 0 where
  no_pairs : (attrs : List Attr) → DrawsPairs col attrs attrs []
  pair :
      (c : ℕ) (k v raw : Bytes) (before after : List Attr) (rows : List Bytes)
      → col c
      → KeyValue c k v raw
      → DrawsPairs col (put_attr k v before) after rows
      → DrawsPairs col before after (raw ∷ rows)

-- The nodes of a forest at a column: the attributes of each stand two columns further, its children
-- at a column further on, and filler may stand in front of each node and at the end.
pub data Draws : ℕ → Forest → List Bytes → Type 0 where
  no_nodes : (c : ℕ) → Draws c nil []
  filler :
      (c : ℕ) (ns : Forest) (raw : Bytes) (rows : List Bytes)
      → Filler raw
      → Draws c ns rows
      → Draws c ns (raw ∷ rows)
  operator_line :
      (c d : ℕ) (op raw : Bytes) (attrs : List Attr) (children ns : Forest)
      (pairs below rows : List Bytes)
      → OperatorLine c op raw
      → DrawsPairs (λ k. k ≡ suc (suc c)) [] attrs pairs
      → c < d
      → Draws d children below
      → Draws c ns rows
      → Draws c (cons (node op attrs children) ns) (raw ∷ (pairs ++ (below ++ rows)))
