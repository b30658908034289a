-- ===== src/Explain/Spine.antt =====
-- The pointers of explain_parse.go: each leads down the right edge of the tree. An `append` moves the
-- earlier children of the innermost open node alone, and no entry of the stack points to those.
use sql_ai_tools.Prelude.{ℕ, ◌≡◌, refl, ap, ◌∙◌, List, [], ◌∷◌, ◌++◌, Bytes}
use sql_ai_tools.Explain.{
  Attr, PlanNode, Forest, node, nil, cons, count, snoc, edit, edit_node, children_at, children_of,
}

-- The nodes that are open, from the root on, each with its earlier siblings.
pub record Frame : Type 0 where
  pub left : Forest
  pub op : Bytes
  pub attrs : List Attr

-- The roots, where `ns` are the children of the innermost open node.
abbrev pub plug : List Frame → Forest → Forest
plug [] ns = ns
plug (f ∷ spine) ns = snoc f.left (node f.op f.attrs (plug spine ns))

abbrev pub path : List Frame → List ℕ
path [] = []
path (f ∷ spine) = count f.left ∷ path spine

abbrev pub append : Forest → Forest → Forest
append nil ms = ms
append (cons n ns) ms = cons n (append ns ms)

edit-snoc :
    (f : PlanNode → PlanNode) (p : List ℕ) (l : Forest) (n : PlanNode)
    → edit f (count l ∷ p) (snoc l n) ≡ snoc l (edit_node f p n)
unfolding edit count snoc
edit-snoc f p nil n = refl
edit-snoc f p (cons m l) n = ap (cons m) (edit-snoc f p l n)

children_at-snoc :
    (p : List ℕ) (l : Forest) (n : PlanNode)
    → children_at (count l ∷ p) (snoc l n) ≡ children_of p n
unfolding children_at count snoc
children_at-snoc p nil n = refl
children_at-snoc p (cons m l) n = children_at-snoc p l n

edit_node-inner :
    (f : PlanNode → PlanNode) (p : List ℕ) (i : ℕ) (op : Bytes) (attrs : List Attr) (ch : Forest)
    → edit_node f (p ++ i ∷ []) (node op attrs ch) ≡ node op attrs (edit f (p ++ i ∷ []) ch)
unfolding edit_node
edit_node-inner f [] i op attrs ch = refl
edit_node-inner f (j ∷ p) i op attrs ch = refl

children_of-inner :
    (p : List ℕ) (i : ℕ) (op : Bytes) (attrs : List Attr) (ch : Forest)
    → children_of (p ++ i ∷ []) (node op attrs ch) ≡ children_at (p ++ i ∷ []) ch
unfolding children_of
children_of-inner [] i op attrs ch = refl
children_of-inner (j ∷ p) i op attrs ch = refl

-- A write through the pointer to the last child of the innermost open node.
pub edit-plug :
    (f : PlanNode → PlanNode) (spine : List Frame) (l : Forest) (n : PlanNode)
    → edit f (path spine ++ count l ∷ []) (plug spine (snoc l n)) ≡ plug spine (snoc l (f n))
unfolding edit_node
edit-plug f [] l n = edit-snoc f [] l n
edit-plug f (g ∷ spine) l n =
    edit-snoc f (path spine ++ count l ∷ []) g.left (node g.op g.attrs (plug spine (snoc l n)))
    ∙ ap (snoc g.left) (
        edit_node-inner f (path spine) (count l) g.op g.attrs (plug spine (snoc l n))
        ∙ ap (node g.op g.attrs) (edit-plug f spine l n))

pub children_at-plug :
    (spine : List Frame) (l : Forest) (op : Bytes) (attrs : List Attr) (ch : Forest)
    → children_at (path spine ++ count l ∷ []) (plug spine (snoc l (node op attrs ch))) ≡ count ch
unfolding children_of
children_at-plug [] l op attrs ch = children_at-snoc [] l (node op attrs ch)
children_at-plug (g ∷ spine) l op attrs ch =
    let inner = plug spine (snoc l (node op attrs ch)) in
    children_at-snoc (path spine ++ count l ∷ []) g.left (node g.op g.attrs inner)
    ∙ children_of-inner (path spine) (count l) g.op g.attrs inner
    ∙ children_at-plug spine l op attrs ch

pub plug-append :
    (spine : List Frame) (f : Frame) (ns : Forest)
    → plug (spine ++ f ∷ []) ns ≡ plug spine (snoc f.left (node f.op f.attrs ns))
plug-append [] f ns = refl
plug-append (g ∷ spine) f ns = ap (λ m. snoc g.left (node g.op g.attrs m)) (plug-append spine f ns)

pub path-append :
    (spine : List Frame) (f : Frame) → path (spine ++ f ∷ []) ≡ path spine ++ count f.left ∷ []
path-append [] f = refl
path-append (g ∷ spine) f = ap (λ (p : List ℕ). count g.left ∷ p) (path-append spine f)

pub append-snoc : (ns ms : Forest) (x : PlanNode) → append (snoc ns x) ms ≡ append ns (cons x ms)
unfolding snoc
append-snoc nil ms x = refl
append-snoc (cons n ns) ms x = ap (cons n) (append-snoc ns ms x)

pub append-nil : (ns : Forest) → append ns nil ≡ ns
append-nil nil = refl
append-nil (cons n ns) = ap (cons n) (append-nil ns)
