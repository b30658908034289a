-- ===== src/Explain.antt =====
-- internal/conn/explain_parse.go: the tree of an EXPLAIN result from its rows. A row is the list of
-- its code points. `nil` maps and slices are the empty ones. A `*PlanNode` is the path of indices that
-- leads to the node from the roots.
pub mod Spine
pub mod Drawn
pub mod Trims
pub mod Lines
pub mod Levels
pub mod RoundTrip
use sql_ai_tools.Prelude.{
  ℕ, zero, suc, ◌+◌, ◌-◌, Bool, true, false, ◌||◌, List, [], ◌∷◌, ◌++◌, Option, none, some, Bytes,
  leb, ltb, ◌==◌, if◌then◌else◌,
}
use sql_ai_tools.Text.{bytes_eq, trim_space}

pub record Attr : Type 0 where
  pub key : Bytes
  pub value : Bytes

-- `PlanNode`, and a slice of them.
mutual
  pub data PlanNode : Type 0 where
    node : (op : Bytes) → (attrs : List Attr) → (children : Forest) → PlanNode

  pub data Forest : Type 0 where
    nil : Forest
    cons : PlanNode → Forest → Forest

-- A write to a map.
unfoldable pub put_attr : Bytes → Bytes → List Attr → List Attr
unfolding bytes_eq
put_attr k v [] = record { key = k; value = v } ∷ []
put_attr k v (a ∷ attrs) =
    let rest = put_attr k v attrs in
    if bytes_eq a.key k then record { key = k; value = v } ∷ attrs else a ∷ rest

unfoldable pub count : Forest → ℕ
count nil = 0
count (cons n ns) = suc (count ns)

-- `append` of one node.
unfoldable pub snoc : Forest → PlanNode → Forest
snoc nil x = cons x nil
snoc (cons n ns) x = cons n (snoc ns x)

-- A write through a pointer, and the length of the children of the node that it leads to.
unfoldable mutual
  pub edit : (PlanNode → PlanNode) → List ℕ → Forest → Forest
  edit f [] ns = ns
  edit f (i ∷ p) nil = nil
  edit f (zero ∷ p) (cons n ns) = cons (edit_node f p n) ns
  edit f (suc i ∷ p) (cons n ns) = cons n (edit f (i ∷ p) ns)

  pub edit_node : (PlanNode → PlanNode) → List ℕ → PlanNode → PlanNode
  edit_node f [] n = f n
  edit_node f (i ∷ p) (node op attrs ch) = node op attrs (edit f (i ∷ p) ch)

unfoldable mutual
  pub children_at : List ℕ → Forest → ℕ
  children_at [] ns = 0
  children_at (i ∷ p) nil = 0
  children_at (zero ∷ p) (cons n ns) = children_of p n
  children_at (suc i ∷ p) (cons n ns) = children_at (i ∷ p) ns

  pub children_of : List ℕ → PlanNode → ℕ
  children_of [] (node op attrs ch) = count ch
  children_of (i ∷ p) (node op attrs ch) = children_at (i ∷ p) ch

unfoldable pub add_child : PlanNode → PlanNode → PlanNode
unfolding snoc
add_child x (node op attrs ch) = node op attrs (snoc ch x)

unfoldable pub set_attr : Bytes → Bytes → PlanNode → PlanNode
unfolding put_attr
set_attr k v (node op attrs ch) = node op (put_attr k v attrs) ch

-- `stackEntry`.
pub record Entry : Type 0 where
  pub col : ℕ
  pub pointer : List ℕ

-- The variables of `parseExplainTree`; the top of the stack comes first.
pub record State : Type 0 where
  pub header : List Attr
  pub roots : Forest
  pub stack : List Entry
  pub in_header : Bool

unfoldable pub is_tree_glyph : ℕ → Bool
is_tree_glyph r = r == 32 || r == 9 || r == 9474 || r == 9492 || r == 9500 || r == 9472

-- `strings.TrimRight(raw, " \t")`.
unfoldable pub trim_blank : Bytes → Bytes
trim_blank [] = []
trim_blank (c ∷ s) = keep c (trim_blank s)
  where
    keep : ℕ → Bytes → Bytes
    keep c [] = if c == 32 || c == 9 then [] else c ∷ []
    keep c (d ∷ t) = c ∷ d ∷ t

-- What the loop finds in a row.
pub data Row : Type 0 where
  blank : Row
  operator : (col : ℕ) → (op : Bytes) → Row
  prefix_only : Row
  content : (col : ℕ) → (text : Bytes) → Row

-- `parseOperatorLine`, from the column `i`.
unfoldable pub parse_operator_line : ℕ → Bytes → Option (ℕ × Bytes)
unfolding is_tree_glyph trim_space
parse_operator_line i [] = none
parse_operator_line i (r ∷ rest) =
    let next = parse_operator_line (suc i) rest in
    if r == 8226 then some (i, trim_space rest) else if is_tree_glyph r then next else none

-- `findContent`, from the column `i`.
unfoldable pub find_content : ℕ → Bytes → Option (ℕ × Bytes)
unfolding is_tree_glyph trim_space
find_content i [] = none
find_content i (r ∷ rest) =
    let next = find_content (suc i) rest in
    if is_tree_glyph r then next else some (i, trim_space (r ∷ rest))

unfoldable pub content_row : Option (ℕ × Bytes) → Row
content_row none = prefix_only
content_row (some (col, [])) = prefix_only
content_row (some (col, c ∷ text)) = content col (c ∷ text)

unfoldable pub operator_row : Bytes → Option (ℕ × Bytes) → Row
unfolding content_row find_content
operator_row line none = content_row (find_content 0 line)
operator_row line (some (col, op)) = operator col op

unfoldable pub line_row : Bytes → Row
unfolding operator_row parse_operator_line bytes_eq
line_row [] = blank
line_row (c ∷ line) =
    if bytes_eq (trim_space (c ∷ line)) (183 ∷ [])
    then blank
    else operator_row (c ∷ line) (parse_operator_line 0 (c ∷ line))

unfoldable pub row_of : Bytes → Row
unfolding line_row trim_blank
row_of raw = line_row (trim_blank raw)

-- `splitKV`: the parts around the first colon.
unfoldable pub cut_colon : Bytes → Option (Bytes × Bytes)
cut_colon [] = none
cut_colon (c ∷ s) = if c == 58 then some ([], s) else with_first c (cut_colon s)
  where
    with_first : ℕ → Option (Bytes × Bytes) → Option (Bytes × Bytes)
    with_first c none = none
    with_first c (some (k, v)) = some (c ∷ k, v)

unfoldable pub trim_both : Option (Bytes × Bytes) → Option (Bytes × Bytes)
unfolding trim_space
trim_both none = none
trim_both (some (k, v)) = some (trim_space k, trim_space v)

unfoldable pub split_kv : Bytes → Option (Bytes × Bytes)
unfolding cut_colon trim_both
split_kv s = trim_both (cut_colon s)

-- The entries at this column or deeper are popped.
unfoldable pub pop : ℕ → List Entry → List Entry
pop col [] = []
pop col (e ∷ es) = let rest = pop col es in if leb col e.col then rest else e ∷ es

unfoldable pub push : ℕ → PlanNode → State → List Entry → State
unfolding snoc edit children_at add_child count
push col x s [] = record s {
  roots = snoc s.roots x;
  stack = record { col = col; pointer = count s.roots ∷ [] } ∷ [];
}
push col x s (e ∷ es) = record s {
  roots = edit (add_child x) e.pointer s.roots;
  stack = record { col = col; pointer = e.pointer ++ children_at e.pointer s.roots ∷ [] } ∷ e ∷ es;
}

unfoldable pub open_operator : ℕ → Bytes → State → State
unfolding push pop
open_operator col op s =
    push col (node op [] nil) (record s { in_header = false }) (pop col s.stack)

-- `ownerByColumn`.
unfoldable pub find_owner : List Entry → ℕ → Option (List ℕ)
find_owner [] col = none
find_owner (e ∷ es) col =
    let rest = find_owner es col in if e.col == col then some e.pointer else rest

-- At the column `contentCol-2`, where no operator is when that is negative.
unfoldable pub owner_by_column : List Entry → ℕ → Option (List ℕ)
unfolding find_owner
owner_by_column stack zero = none
owner_by_column stack (suc zero) = none
owner_by_column stack (suc (suc col)) = find_owner stack col

pub data Fault : Type 0 where
  no_name header_not_kv no_owner attr_not_kv : Fault

pub data Step : Type 0 where
  next : State → Step
  fault : Fault → Step

unfoldable pub header_row : State → Option (Bytes × Bytes) → Step
unfolding put_attr
header_row s none = fault header_not_kv
header_row s (some (k, v)) = next (record s { header = put_attr k v s.header })

unfoldable pub attr_row : State → Option (List ℕ) → Option (Bytes × Bytes) → Step
unfolding edit set_attr
attr_row s none kv = fault no_owner
attr_row s (some p) none = fault attr_not_kv
attr_row s (some p) (some (k, v)) = next (record s { roots = edit (set_attr k v) p s.roots })

-- The body of the loop.
unfoldable pub step : Row → State → Step
unfolding open_operator header_row attr_row owner_by_column split_kv
step blank s = next (record s { in_header = false })
step prefix_only s = next s
step (operator col []) s = fault no_name
step (operator col (c ∷ op)) s = next (open_operator col (c ∷ op) s)
step (content col text) s =
    if s.in_header
    then header_row s (split_kv text)
    else attr_row s (owner_by_column s.stack col) (split_kv text)

-- The error names the row.
pub data Parsed : Type 0 where
  parsed : (header : List Attr) → (plan : Forest) → Parsed
  failed : (row : ℕ) → Fault → Parsed

unfoldable pub parse_rows : ℕ → List Bytes → State → Parsed
unfolding step row_of
parse_rows i [] s = parsed s.header s.roots
parse_rows i (raw ∷ rows) s = elim (step (row_of raw) s) [
  | next t ↦ parse_rows (suc i) rows t
  | fault x ↦ failed i x
]

-- `parseExplainTree`.
unfoldable pub parse_explain_tree : List Bytes → Parsed
unfolding parse_rows
parse_explain_tree rows =
    parse_rows 0 rows (record { header = []; roots = nil; stack = []; in_header = true })
