-- ===== src/Tests/Texts.antt =====
-- Prompts, positions and suggestions on concrete texts.
use sql_ai_tools.Text.{has_prefix, bytes_eq}
use sql_ai_tools.Strip.Prompt.{primary_rest}
use sql_ai_tools.Prelude.{
  ◌+◌, ◌-◌, ◌≤◌, ◌≡◌, refl, List, [], ◌∷◌, some, Bytes, codes, arith, length, map, All,
}
use sql_ai_tools.Strip.{strip_shell_prompts_with_map}
use sql_ai_tools.Strip.Offsets.{IsFaithful, strip-IsFaithful}
use sql_ai_tools.Position.{Position, line_column}
use sql_ai_tools.Position.Lines.{line_start, line_column_exact}
use sql_ai_tools.Keyword.{damerau_levenshtein, suggest_keyword}
use sql_ai_tools.Keyword.Alignment.{align, damerau_levenshtein-align}
use sql_ai_tools.Suggest.{
  Scored, levenshtein, abs_diff, equal_fold, suggest, max_distance, sort_hits, scored,
  suggest_with_distance, before,
}
use sql_ai_tools.Suggest.Distance.{edit, rev_onto, levenshtein-edit}
use sql_ai_tools.Suggest.Ranking.{Rising}
use sql_ai_tools.Suggest.Promise.{IsSuggested, suggest_promise}

-- A statement copied from the shell, with its prompt.
abbrev pasted : Bytes
pasted = codes "root@host:26257/db> SELECT 1"

strip_run : (strip_shell_prompts_with_map pasted).stripped ≡ codes "SELECT 1"
unfolding strip_shell_prompts_with_map primary_rest
strip_run = refl

strip-IsFaithful_example : IsFaithful pasted (strip_shell_prompts_with_map pasted)
strip-IsFaithful_example = strip-IsFaithful pasted

abbrev two_lines : Bytes
two_lines = 65 ∷ 10 ∷ 66 ∷ []

line_column_run : line_column two_lines 2 ≡ (2, 1)
unfolding line_column has_prefix
line_column_run = refl

line_column_exact_example :
    let (line, col) = line_column two_lines 2 in line_start two_lines (line - 1) + (col - 1) ≡ 2
line_column_exact_example = line_column_exact two_lines 2 (omega arith)

distance_run : levenshtein (codes "kitten") (codes "sitting") ≡ 3
unfolding levenshtein bytes_eq
distance_run = refl

levenshtein-edit_example :
    levenshtein (codes "selct") (codes "select")
    ≡ edit (rev_onto (codes "selct") []) (rev_onto (codes "select") [])
levenshtein-edit_example = levenshtein-edit (codes "selct") (codes "select")

abbrev near : Scored
near = record { name = codes "Select"; distance = 1 }

abbrev columns : List Bytes
columns = codes "user_id" ∷ codes "username" ∷ codes "created" ∷ []

abbrev here : Position
here = record { line = 1; column = 8; byte_offset = 7 }

suggest_run :
    map (λ s. s.replacement) (suggest (codes "usre_id") columns (some here)) ≡ codes "user_id" ∷ []
unfolding suggest max_distance sort_hits scored equal_fold abs_diff levenshtein
suggest_run = refl

suggest_promise_example :
    All (IsSuggested (codes "usre_id") columns 7) (suggest (codes "usre_id") columns (some here))
    × (length (suggest (codes "usre_id") columns (some here)) ≤ 3)
    × Rising (map (λ s. s.distance) (suggest (codes "usre_id") columns (some here)))
suggest_promise_example = suggest_promise (codes "usre_id") columns here

transposition_run : damerau_levenshtein (codes "form") (codes "from") ≡ 1
unfolding damerau_levenshtein
transposition_run = refl

damerau_levenshtein-align_example :
    damerau_levenshtein (codes "tbale") (codes "table")
    ≡ align (rev_onto (codes "tbale") []) (rev_onto (codes "table") [])
damerau_levenshtein-align_example = damerau_levenshtein-align (codes "tbale") (codes "table")

keyword_run :
    map
      (λ s. s.replacement)
      (suggest_keyword (codes "for" ∷ codes "from" ∷ codes "table" ∷ []) (codes "FORM") (some here))
    ≡ codes "from" ∷ codes "for" ∷ []
unfolding suggest_keyword suggest_with_distance max_distance sort_hits scored equal_fold abs_diff
    damerau_levenshtein before
keyword_run = refl
