-- ===== src/Explain/Levels.antt =====
-- What the parser of explain_parse.go does with the rows of one level of the tree.
use sql_ai_tools.Prelude.{
  ℕ, suc, ◌+◌, ◌≤◌, ◌<◌, ◌≡◌, refl, sym, ap, ◌∙◌, Bool, true, false, List, [], ◌∷◌, ◌++◌, length,
  length-append, append_assoc, Bytes, All, leb, ◌==◌, ==_iff, arith,
}
use sql_ai_tools.Explain.{
  Attr, PlanNode, Forest, node, nil, count, snoc, put_attr, set_attr, add_child, edit, children_at,
  Entry, State, row_of, pop, push, find_owner, owner_by_column, next, attr_row, step, parse_rows,
}
use sql_ai_tools.Explain.Spine.{
  Frame, plug, path, edit-plug, children_at-plug, plug-append, path-append,
}
use sql_ai_tools.Explain.Drawn.{DrawsPairs, no_pairs, pair}
use sql_ai_tools.Explain.Lines.{reads-pair}

-- The loop takes the rows and comes from the one state to the other.
abbrev pub Goes : List Bytes → State → State → Type 0
Goes rows s t =
    (i : ℕ) (more : List Bytes)
    → parse_rows i (rows ++ more) s ≡ parse_rows (length rows + i) more t

pub stay-Goes : (s : State) → Goes [] s s
stay-Goes s i more = ap (λ n. parse_rows n more s) (omega arith)

pub row-Goes :
    (raw : Bytes) (rows : List Bytes) (s t u : State)
    → step (row_of raw) s ≡ next t
    → Goes rows t u
    → Goes (raw ∷ rows) s u
unfolding parse_rows
row-Goes raw rows s t u e h i more =
    rw (e, parse_rows) (h (suc i) more ∙ ap (λ n. parse_rows n more u) (omega arith))

pub append-Goes :
    (xs ys : List Bytes) (s t u : State) → Goes xs s t → Goes ys t u → Goes (xs ++ ys) s u
append-Goes xs ys s t u h k i more = rw (append_assoc xs ys more) (
    h i (ys ++ more)
    ∙ k (length xs + i) more
    ∙ ap (λ n. parse_rows n more u) (omega (arith, length-append xs ys)))

-- A state by its parts.
abbrev pub at : List Attr → Bool → Forest → List Entry → State
at h b roots stack = record { header = h; roots = roots; stack = stack; in_header = b }

abbrev pub top : ℕ → List Frame → Forest → Entry
top c spine done = record { col = c; pointer = path spine ++ count done ∷ [] }

-- Where a level of the tree goes on: a node is added behind the siblings, and the entries of the
-- levels above stay on the stack.
pub record Level (c : ℕ) (spine : List Frame) (base : List Entry) : Type 0 where
  pub pushes :
      (h : List Attr) (b : Bool) (stack : List Entry) (done : Forest) (x : PlanNode)
      → push c x (at h b (plug spine done) stack) base
        ≡ at h b (plug spine (snoc done x)) (top c spine done ∷ base)
  pub popped : pop c base ≡ base

pub root-Level : (c : ℕ) → Level c [] []
unfolding push pop
root-Level c = record { pushes = λ h b stack done x. refl; popped = refl }

abbrev pub frame : Forest → Bytes → List Attr → Frame
frame done op attrs = record { left = done; op = op; attrs = attrs }

-- The level below a node.
pub under-Level :
    (c d : ℕ) (spine : List Frame) (base : List Entry) (done : Forest) (op : Bytes)
    (attrs : List Attr)
    → c < d
    → Level d (spine ++ frame done op attrs ∷ []) (top c spine done ∷ base)
unfolding push pop add_child
under-Level c d spine base done op attrs lt = record {
  pushes = λ h b stack ch x.
      let f = frame done op attrs in
      let p = path spine ++ count done ∷ [] in
      let here = plug-append spine f ch in
      let roots : edit (add_child x) p (plug (spine ++ f ∷ []) ch)
          ≡ plug (spine ++ f ∷ []) (snoc ch x) =
        ap (edit (add_child x) p) here
        ∙ edit-plug (add_child x) spine done (node op attrs ch)
        ∙ sym (plug-append spine f (snoc ch x)) in
      let last : children_at p (plug (spine ++ f ∷ []) ch) ≡ count ch =
        ap (children_at p) here ∙ children_at-plug spine done op attrs ch in
      rw (roots, last, path-append spine f) refl;
  popped = let deep : leb d c ≡ false = ground (arith, lt) in rw deep refl;
}

-- The entries at this column or deeper go.
pub pop-deep :
    (c : ℕ) (junk base : List Entry)
    → All (λ (e : Entry). c ≤ e.col) junk
    → pop c base ≡ base
    → pop c (junk ++ base) ≡ base
unfolding pop
pop-deep c [] base h e = e
pop-deep c (x ∷ junk) base h e =
    let deep : leb c x.col ≡ true = ground (arith, h.0) in rw deep (pop-deep c junk base h.1 e)

-- The pairs behind an operator become its attributes.
pub pairs-Goes :
    (c : ℕ) (spine : List Frame) (done : Forest) (op : Bytes) (h : List Attr) (base : List Entry)
    (before after : List Attr) (rows : List Bytes)
    → DrawsPairs (λ k. k ≡ suc (suc c)) before after rows
    → Goes rows
        (at h false (plug spine (snoc done (node op before nil))) (top c spine done ∷ base))
        (at h false (plug spine (snoc done (node op after nil))) (top c spine done ∷ base))
unfolding step attr_row owner_by_column find_owner set_attr
pairs-Goes c spine done op h base _ _ _ (no_pairs attrs) = stay-Goes _
pairs-Goes c spine done op h base _ _ _ (pair k key v raw before after rows here kv more) =
    let (text, reads, splits) = reads-pair k key v raw kv in
    let mine : (c == c) ≡ true = (==_iff c c).1 refl in
    let written = edit-plug (set_attr key v) spine done (node op before nil) in
    row-Goes raw rows _ _ _ (rw (reads, here, mine, splits, written) refl)
      (pairs-Goes c spine done op h base (put_attr key v before) after rows more)
