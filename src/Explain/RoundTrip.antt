-- ===== src/Explain/RoundTrip.antt =====
-- The parser of explain_parse.go reads back the plan that the rows draw.
use sql_ai_tools.Prelude.{
  ℕ, ◌≤◌, ◌≡◌, refl, sym, ap, ◌∙◌, Bool, true, false, List, [], ◌∷◌, ◌++◌, append_assoc, append-nil,
  Bytes, All, All-append, arith, inl, inr,
}
use sql_ai_tools.Explain.{
  Attr, Forest, node, nil, snoc, put_attr, Entry, State, row_of, open_operator, next, header_row,
  step, parsed, parse_rows, parse_explain_tree,
}
use sql_ai_tools.Explain.Spine.{
  Frame, plug, append, plug-append, append-snoc, append-nil as append_nil,
}
use sql_ai_tools.Explain.Drawn.{
  OperatorLine, Filler, DrawsPairs, no_pairs, pair, Draws, no_nodes, filler, operator_line,
}
use sql_ai_tools.Explain.Lines.{reads-operator, reads-pair, reads-Filler}
use sql_ai_tools.Explain.Levels.{
  Goes, stay-Goes, row-Goes, append-Goes, at, top, frame, Level, root-Level, under-Level, pop-deep,
  pairs-Goes,
}

-- Whatever deeper entries are on the stack, the rows add the nodes behind their siblings.
record Adds (h : List Attr) (c : ℕ) (spine : List Frame) (base : List Entry) (rows : List Bytes)
    (s : State) (after : Forest) : Type 0 where
  in_head : Bool
  junk : List Entry
  deep : All (λ (e : Entry). c ≤ e.col) junk
  goes : Goes rows s (at h in_head (plug spine after) (junk ++ base))

module _ (h : List Attr) where
  Filler-Goes :
      (raw : Bytes) (b : Bool) (roots : Forest) (stack : List Entry)
      → Filler raw
      → (f : Bool) × (step (row_of raw) (at h b roots stack) ≡ next (at h f roots stack))
  unfolding step
  Filler-Goes raw b roots stack fill = elim (reads-Filler raw fill) [
    | inl e ↦ (false, rw e refl)
    | inr e ↦ (b, rw e refl)
  ]

  operator-Goes :
      (c : ℕ) (spine : List Frame) (base : List Entry) (op raw : Bytes) (b : Bool) (done : Forest)
      (junk : List Entry)
      → Level c spine base
      → All (λ (e : Entry). c ≤ e.col) junk
      → OperatorLine c op raw
      → step (row_of raw) (at h b (plug spine done) (junk ++ base))
        ≡ next (at h false (plug spine (snoc done (node op [] nil))) (top c spine done ∷ base))
  unfolding step open_operator
  operator-Goes c spine base [] raw b done junk l deep line = absurd line.2
  operator-Goes c spine base (r ∷ op) raw b done junk l deep line =
      rw (reads-operator c (r ∷ op) raw line, pop-deep c junk base deep l.popped)
        (ap next (l.pushes h false (junk ++ base) done (node (r ∷ op) [] nil)))

  forest-Adds :
      (c : ℕ) (ns : Forest) (rows : List Bytes)
      → Draws c ns rows
      → (spine : List Frame) (base : List Entry) → Level c spine base
      → (b : Bool) (done : Forest) (junk : List Entry) → All (λ (e : Entry). c ≤ e.col) junk
      → Adds h c spine base rows (at h b (plug spine done) (junk ++ base)) (append done ns)
  forest-Adds c _ _ (no_nodes _) spine base l b done junk deep = record {
    in_head = b;
    junk = junk;
    deep = deep;
    goes = rw (append_nil done) (stay-Goes _);
  }
  forest-Adds c ns _ (filler _ _ raw rows fill more) spine base l b done junk deep =
      let (f, e) = Filler-Goes raw b (plug spine done) (junk ++ base) fill in
      let rest = forest-Adds c ns rows more spine base l f done junk deep in
      record {
        in_head = rest.in_head;
        junk = rest.junk;
        deep = rest.deep;
        goes = row-Goes raw rows _ _ _ e rest.goes;
      }
  forest-Adds c _ _
        (operator_line _ d op raw attrs children ns pairs below rows line drawn lt inner more) spine
        base l b done junk deep =
      let spine' = spine ++ frame done op attrs ∷ [] in
      let mine = top c spine done in
      let kids =
        forest-Adds d children below inner spine' (mine ∷ base)
          (under-Level c d spine base done op attrs lt) false nil [] tt in
      let n = node op attrs children in
      let stack = kids.junk ++ mine ∷ base in
      let same : kids.junk ++ mine ∷ base ≡ (kids.junk ++ mine ∷ []) ++ base =
        sym (append_assoc kids.junk (mine ∷ []) base) in
      let below_goes : Goes below
          (at h false (plug spine (snoc done (node op attrs nil))) (mine ∷ base))
          (at h kids.in_head (plug spine (snoc done n)) ((kids.junk ++ mine ∷ []) ++ base)) =
        rw
          (
            ← same,
            ← plug-append spine (frame done op attrs) nil,
            ← plug-append spine (frame done op attrs) children,
          )
          kids.goes in
      let deep_now =
        All-append (λ (e : Entry). c ≤ e.col) kids.junk (mine ∷ []) (weaken kids.junk kids.deep)
          (omega arith, tt) in
      let rest =
        forest-Adds c ns rows more spine base l kids.in_head (snoc done n) (kids.junk ++ mine ∷ [])
          deep_now in
      record {
        in_head = rest.in_head;
        junk = rest.junk;
        deep = rest.deep;
        goes =
            row-Goes raw (pairs ++ (below ++ rows)) _ _ _
              (operator-Goes c spine base op raw b done junk l deep line)
              (append-Goes pairs (below ++ rows) _ _ _
                (pairs-Goes c spine done op h base [] attrs pairs drawn)
                (append-Goes below rows _ _ _ below_goes (rw (← append-snoc done ns n) rest.goes)));
      }
    where
      weaken :
          (es : List Entry) → All (λ (e : Entry). d ≤ e.col) es → All (λ (e : Entry). c ≤ e.col) es
      weaken [] k = tt
      weaken (e ∷ es) k = (omega (arith, lt, k.0), weaken es k.1)

-- The pairs of the header, then the operators.
abbrev pub DrawsPlan : List Attr → Forest → List Bytes → Type 0
DrawsPlan header plan rows =
    (pairs : List Bytes) × (below : List Bytes) × (c : ℕ) × DrawsPairs (λ k. Unit) [] header pairs
    × Draws c plan below
    × (rows ≡ pairs ++ below)

header-Goes :
    (before after : List Attr) (rows : List Bytes)
    → DrawsPairs (λ k. Unit) before after rows
    → Goes rows (at before true nil []) (at after true nil [])
unfolding step header_row
header-Goes _ _ _ (no_pairs attrs) = stay-Goes _
header-Goes _ _ _ (pair k key v raw before after rows here kv more) =
    let (text, reads, splits) = reads-pair k key v raw kv in
    row-Goes raw rows _ _ _ (rw (reads, splits) refl)
      (header-Goes (put_attr key v before) after rows more)

-- Rows that draw a header and a plan are parsed as just that header and that plan, whatever glyphs
-- lead to a column, however far the children of an operator stand to the right of it, and with rows
-- of glyphs alone, empty rows and separators between the operators.
pub parse_explain_tree-draws :
    (header : List Attr) (plan : Forest) (rows : List Bytes)
    → DrawsPlan header plan rows
    → parse_explain_tree rows ≡ parsed header plan
unfolding parse_explain_tree
parse_explain_tree-draws header plan rows (pairs, below, c, top_pairs, drawn, e) =
    let first = header-Goes [] header pairs top_pairs in
    let rest = forest-Adds header c plan below drawn [] [] (root-Level c) true nil [] tt in
    let all = append-Goes pairs below _ _ _ first rest.goes 0 [] in
    rw e (ap (λ xs. parse_rows 0 xs (at [] true nil [])) (sym (append-nil (pairs ++ below))) ∙ all)
