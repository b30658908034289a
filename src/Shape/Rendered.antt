-- ===== src/Shape/Rendered.antt =====
-- The text of a schema change plan, and that explain_ddl_parse.go reads it back.
use sql_ai_tools.Prelude.{
  Bool, true, false, ℕ, suc, ◌+◌, ◌≡◌, refl, sym, ap, ◌∙◌, List, [], ◌∷◌, ◌++◌, length, some, Bytes,
  All, codes, arith, append_assoc, append-nil, inr,
}
use sql_ai_tools.Text.{has_prefix}
use sql_ai_tools.Text.Laws.{Lacks}
use sql_ai_tools.Explain.{trim_blank}
use sql_ai_tools.Explain.Drawn.{Trimmed}
use sql_ai_tools.Explain.Trims.{blank-append, blank-right}
use sql_ai_tools.Explain.Lines.{trim-spaced, Trimmed-right}
use sql_ai_tools.Shape.{
  DdlOperation, shape, not_empty, behind_connector, strip_connector, ShapeLine, operation_line,
  target_line, unrecognized, target_prefixes, target_of, or_else, classify_shape_line, add_target,
  shape_step, line_step, shape_lines,
}

-- A text of one line, without white space around it.
abbrev pub OneLine : Bytes → Type 0
OneLine s = Trimmed s × Lacks 10 s

-- A line of a plan: what stands in front of a target, and the connector.
abbrev pub bar : Bool → ℕ
bar false = 9474
bar true = 32

abbrev pub indent : Bool → Bytes
indent under_last = 32 ∷ bar under_last ∷ 32 ∷ 32 ∷ 32 ∷ 32 ∷ []

abbrev pub connector : Bool → Bytes
connector false = 9500 ∷ 9472 ∷ 9472 ∷ 32 ∷ []
connector true = 9492 ∷ 9472 ∷ 9472 ∷ 32 ∷ []

abbrev pub operation_row : Bool → Bytes → Bytes
operation_row last op = (32 ∷ connector last) ++ op

abbrev pub target_row : Bool → Bool → Bytes → Bytes
target_row under_last last t = (indent under_last ++ connector last) ++ t

reads-operation :
    (b : Bool) (op : Bytes)
    → Trimmed op
    → classify_shape_line (operation_row b op) ≡ operation_line op
unfolding classify_shape_line strip_connector behind_connector has_prefix not_empty
reads-operation b [] h = absurd h
reads-operation false (c ∷ op) h =
    ap
      (λ (s : Bytes).
        or_else operation_line (not_empty s)
          (target_of (operation_row false (c ∷ op)) target_prefixes))
      (trim-spaced (c ∷ op) h).0
reads-operation true (c ∷ op) h =
    ap
      (λ (s : Bytes).
        or_else operation_line (not_empty s)
          (target_of (operation_row true (c ∷ op)) target_prefixes))
      (trim-spaced (c ∷ op) h).0

reads-target :
    (d b : Bool) (t : Bytes) → Trimmed t → classify_shape_line (target_row d b t) ≡ target_line t
unfolding classify_shape_line strip_connector behind_connector has_prefix not_empty target_of
reads-target d b [] h = absurd h
reads-target false false (c ∷ t) h =
    ap
      (λ (s : Bytes).
        or_else target_line (not_empty s)
          (target_of (target_row false false (c ∷ t)) (codes "      " ∷ [])))
      (trim-spaced (c ∷ t) h).0
reads-target false true (c ∷ t) h =
    ap
      (λ (s : Bytes).
        or_else target_line (not_empty s)
          (target_of (target_row false true (c ∷ t)) (codes "      " ∷ [])))
      (trim-spaced (c ∷ t) h).0
reads-target true false (c ∷ t) h =
    ap (λ (s : Bytes). or_else target_line (not_empty s) unrecognized) (trim-spaced (c ∷ t) h).0
reads-target true true (c ∷ t) h =
    ap (λ (s : Bytes). or_else target_line (not_empty s) unrecognized) (trim-spaced (c ∷ t) h).0

-- The rows of targets, and those of operations with their targets. A target stands behind a bar or,
-- as under the last operation, behind spaces; and each line has either connector.
pub data DrawsTargets : List Bytes → List Bytes → Type 0 where
  no_targets : DrawsTargets [] []
  target :
      (under_last last : Bool) (t : Bytes) (ts rows : List Bytes)
      → DrawsTargets ts rows
      → DrawsTargets (t ∷ ts) (target_row under_last last t ∷ rows)

pub data DrawsOperations : List DdlOperation → List Bytes → Type 0 where
  no_operations : DrawsOperations [] []
  operation :
      (last : Bool) (o : DdlOperation) (ops : List DdlOperation) (here later : List Bytes)
      → DrawsTargets o.targets here
      → DrawsOperations ops later
      → DrawsOperations (o ∷ ops) (operation_row last o.op ∷ (here ++ later))

abbrev pub OneLiners : DdlOperation → Type 0
OneLiners o = OneLine o.op × All OneLine o.targets

add_last :
    (ops : List DdlOperation) (o : DdlOperation) (t : Bytes)
    → add_target t (ops ++ o ∷ []) ≡ some (ops ++ record o { targets = o.targets ++ t ∷ [] } ∷ [])
unfolding add_target
add_last [] o t = refl
add_last (p ∷ []) o t = refl
add_last (p ∷ q ∷ ops) o t = ground (arith, add_last (q ∷ ops) o t)

blank-row : (pre s : Bytes) → Trimmed s → trim_blank (pre ++ s) ≡ pre ++ s
blank-row pre s h =
    let (some_s, right) = Trimmed-right s h in blank-append pre s some_s (blank-right s right)

shape_lines-next :
    (i : ℕ) (statement raw line : Bytes) (lines : List Bytes) (ops next : List DdlOperation)
    → trim_blank raw ≡ line
    → line_step i line ops ≡ inr next
    → shape_lines i statement (raw ∷ lines) ops ≡ shape_lines (suc i) statement lines next
unfolding shape_lines
shape_lines-next i statement raw line lines ops next e h = rw (e, h, shape_lines) refl

operation-step :
    (i : ℕ) (b : Bool) (op : Bytes) (ops : List DdlOperation)
    → Trimmed op
    → line_step i (operation_row b op) ops ≡ inr (ops ++ record { op = op; targets = [] } ∷ [])
unfolding line_step shape_step
operation-step i b op ops h = ap (λ (l : ShapeLine). shape_step i l ops) (reads-operation b op h)

target-step :
    (i : ℕ) (d b : Bool) (t : Bytes) (ops : List DdlOperation) (o : DdlOperation)
    → Trimmed t
    → line_step i (target_row d b t) (ops ++ o ∷ [])
      ≡ inr (ops ++ record o { targets = o.targets ++ t ∷ [] } ∷ [])
unfolding line_step shape_step
target-step i d b t ops o h =
    ap (λ (l : ShapeLine). shape_step i l (ops ++ o ∷ [])) (reads-target d b t h)
    ∙ rw (add_last ops o t, shape_step) refl

targets-read :
    (i : ℕ) (statement : Bytes) (ts rows more : List Bytes) (ops : List DdlOperation)
    (o : DdlOperation)
    → DrawsTargets ts rows
    → All OneLine ts
    → shape_lines i statement (rows ++ more) (ops ++ o ∷ [])
      ≡ shape_lines
          (length ts + i)
          statement
          more
          (ops ++ record o { targets = o.targets ++ ts } ∷ [])
targets-read i statement _ _ more ops o no_targets h =
    let same : o ≡ record o { targets = o.targets ++ [] } =
      ap (λ (xs : List Bytes). record o { targets = xs }) (sym (append-nil o.targets)) in
    rw (← same) (ap (λ n. shape_lines n statement more (ops ++ o ∷ [])) (omega arith))
targets-read i statement _ _ more ops o (target d b t ts rows drawn) h =
    let p = record o { targets = o.targets ++ t ∷ [] } in
    let all : (o.targets ++ t ∷ []) ++ ts ≡ o.targets ++ t ∷ ts =
      append_assoc o.targets (t ∷ []) ts in
    shape_lines-next i statement (target_row d b t) (target_row d b t) (rows ++ more)
      (ops ++ o ∷ []) (ops ++ p ∷ []) (blank-row (indent d ++ connector b) t h.0.0)
      (target-step i d b t ops o h.0.0)
    ∙ targets-read (suc i) statement ts rows more ops p drawn h.1
    ∙ ap
        (λ n.
          shape_lines n statement more
            (ops ++ record o { targets = (o.targets ++ t ∷ []) ++ ts } ∷ []))
        (omega arith)
    ∙ ap
        (λ (xs : List Bytes).
          shape_lines (length (t ∷ ts) + i) statement more (ops ++ record o { targets = xs } ∷ []))
        all

pub rows-read :
    (i : ℕ) (statement : Bytes) (todo : List DdlOperation) (rows : List Bytes)
    (ops : List DdlOperation)
    → DrawsOperations todo rows
    → All OneLiners todo
    → shape_lines i statement rows ops ≡ shape statement (ops ++ todo)
rows-read i statement _ _ ops no_operations h =
    unfold shape_lines in ap (shape statement) (sym (append-nil ops))
rows-read i statement _ _ ops (operation b o todo here later drawn rest) h =
    let new : DdlOperation = record { op = o.op; targets = [] } in
    shape_lines-next i statement (operation_row b o.op) (operation_row b o.op) (here ++ later) ops
      (ops ++ new ∷ []) (blank-row (32 ∷ connector b) o.op h.0.0.0)
      (operation-step i b o.op ops h.0.0.0)
    ∙ targets-read (suc i) statement o.targets here later ops new drawn h.0.1
    ∙ rows-read (length o.targets + suc i) statement todo later (ops ++ o ∷ []) rest h.1
    ∙ ap (shape statement) (append_assoc ops (o ∷ []) todo)
