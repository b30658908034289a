-- ===== src/Tests/Explain.antt =====
-- The parsers of explain_parse.go and explain_ddl_parse.go on drawn plans.
use sql_ai_tools.Prelude.{true, false, ◌≡◌, refl, List, [], ◌∷◌, Bytes, codes, inr, arith}
use sql_ai_tools.Text.{is_space, trim_right, split, trim_suffix, trim_prefix}
use sql_ai_tools.Explain.{
  Attr, Forest, node, nil, cons, is_tree_glyph, put_attr, parsed, parse_explain_tree,
}
use sql_ai_tools.Explain.Drawn.{no_pairs, pair, no_nodes, filler, operator_line}
use sql_ai_tools.Shape.{DdlOperation, shape, parse_explain_ddl_shape}
use sql_ai_tools.Shape.Rendered.{DrawsOperations, no_targets, target, no_operations, operation}
use sql_ai_tools.Shape.RoundTrip.{plan_text, parse_explain_ddl_shape-text}
use sql_ai_tools.Explain.RoundTrip.{DrawsPlan, parse_explain_tree-draws}

abbrev header : List Attr
header = record { key = codes "vectorized"; value = codes "true" } ∷ []

abbrev table : List Attr
table = record { key = codes "table"; value = codes "t" } ∷ []

-- A render over a scan.
abbrev plan : Forest
plan = cons (node (codes "render") [] (cons (node (codes "scan") table nil) nil)) nil

-- `vectorized: true`, a separator, and the operators; the second one stands behind a connector.
abbrev rows : List Bytes
rows =
    codes "vectorized: true"
    ∷ (183 ∷ [])
    ∷ (8226 ∷ 32 ∷ codes "render")
    ∷ (9492 ∷ 9472 ∷ 9472 ∷ 32 ∷ 8226 ∷ 32 ∷ codes "scan")
    ∷ codes "      table: t"
    ∷ []

drawn : DrawsPlan header plan rows
unfolding is_tree_glyph is_space trim_right put_attr
drawn = (
  codes "vectorized: true" ∷ [],
  (183 ∷ [])
      ∷ (8226 ∷ 32 ∷ codes "render")
      ∷ (9492 ∷ 9472 ∷ 9472 ∷ 32 ∷ 8226 ∷ 32 ∷ codes "scan")
      ∷ codes "      table: t"
      ∷ [],
  0,
  pair 0 (codes "vectorized") (codes "true") (codes "vectorized: true") [] header [] tt
      (record {
        pre = [];
        first = 118;
        key = codes "ectorized";
        indents = (tt, refl);
        is_key = refl;
        no_glyph = refl;
        no_bullet = refl;
        no_colon =
            (refl, (refl, (refl, (refl, (refl, (refl, (refl, (refl, (refl, (refl, tt))))))))));
        key_trimmed = (refl, refl);
        value_trimmed = (refl, refl);
        drawn = refl;
      })
      (no_pairs header),
  filler 0 plan (183 ∷ []) _ (inr refl) (
      operator_line 0 4 (codes "render") _ [] _ nil [] _ [] ([], (tt, refl), (refl, refl), refl)
        (no_pairs []) (omega arith)
        (operator_line 4 8 (codes "scan") _ table nil nil (codes "      table: t" ∷ []) [] []
          (
            9492 ∷ 9472 ∷ 9472 ∷ 32 ∷ [],
            ((refl, (refl, (refl, (refl, tt)))), refl),
            (refl, refl),
            refl,
          )
          (pair 6 (codes "table") (codes "t") (codes "      table: t") [] table [] refl
            (record {
              pre = codes "      ";
              first = 116;
              key = codes "able";
              indents = ((refl, (refl, (refl, (refl, (refl, (refl, tt)))))), refl);
              is_key = refl;
              no_glyph = refl;
              no_bullet = refl;
              no_colon = (refl, (refl, (refl, (refl, (refl, tt)))));
              key_trimmed = (refl, refl);
              value_trimmed = (refl, refl);
              drawn = refl;
            })
            (no_pairs table))
          (omega arith) (no_nodes 8) (no_nodes 4))
        (no_nodes 0)),
  refl,
)

parse_explain_tree-draws_example : parse_explain_tree rows ≡ parsed header plan
parse_explain_tree-draws_example = parse_explain_tree-draws header plan rows drawn

plan_run : parse_explain_tree rows ≡ parsed header plan
unfolding parse_explain_tree
plan_run = refl

abbrev operations : List DdlOperation
operations =
    record { op = codes "backfill"; targets = codes "into t" ∷ codes "from t" ∷ [] }
    ∷ record { op = codes "execute 4"; targets = codes "on t" ∷ [] }
    ∷ []

-- The text of the rows, as EXPLAIN draws them.
abbrev shape_rows : List Bytes
shape_rows =
    (32 ∷ 9500 ∷ 9472 ∷ 9472 ∷ codes " backfill")
    ∷ (32 ∷ 9474 ∷ 32 ∷ 32 ∷ 32 ∷ 32 ∷ 9500 ∷ 9472 ∷ 9472 ∷ codes " into t")
    ∷ (32 ∷ 9474 ∷ 32 ∷ 32 ∷ 32 ∷ 32 ∷ 9492 ∷ 9472 ∷ 9472 ∷ codes " from t")
    ∷ (32 ∷ 9492 ∷ 9472 ∷ 9472 ∷ codes " execute 4")
    ∷ (32 ∷ 32 ∷ 32 ∷ 32 ∷ 32 ∷ 32 ∷ 9492 ∷ 9472 ∷ 9472 ∷ codes " on t")
    ∷ []

drawn_shape : DrawsOperations operations shape_rows
drawn_shape =
    operation false _ _ _ _ (target false false _ _ _ (target false true _ _ _ no_targets))
      (operation true _ _ _ _ (target true true _ _ _ no_targets) no_operations)

shape_run :
    parse_explain_ddl_shape (plan_text (codes "ALTER") shape_rows)
    ≡ shape (codes "ALTER") operations
unfolding parse_explain_ddl_shape split trim_suffix trim_prefix
shape_run = refl

parse_explain_ddl_shape-text_example :
    parse_explain_ddl_shape (plan_text (codes "ALTER") shape_rows)
    ≡ shape (codes "ALTER") operations
unfolding is_space trim_right
parse_explain_ddl_shape-text_example =
    parse_explain_ddl_shape-text (codes "ALTER") operations shape_rows
      (refl, (refl, (refl, (refl, (refl, tt))))) drawn_shape
      (
        (
          ((refl, refl), (refl, (refl, (refl, (refl, (refl, (refl, (refl, (refl, tt))))))))),
          (
            ((refl, refl), (refl, (refl, (refl, (refl, (refl, (refl, tt))))))),
            (((refl, refl), (refl, (refl, (refl, (refl, (refl, (refl, tt))))))), tt),
          ),
        ),
        (
          (
            (
              (refl, refl),
              (refl, (refl, (refl, (refl, (refl, (refl, (refl, (refl, (refl, tt))))))))),
            ),
            (((refl, refl), (refl, (refl, (refl, (refl, tt))))), tt),
          ),
          tt,
        ),
      )
