-- ===== src/Keyword.antt =====
-- internal/diag/keywords.go: suggestions for misspelled keywords. The parser's table of keywords is an
-- argument: its keys, sorted.
pub mod Alignment
use sql_ai_tools.Prelude.{
  ℕ, zero, suc, ◌+◌, min, Bool, true, false, ◌&&◌, ◌||◌, List, [], ◌∷◌, Option, none, some, Bytes,
  codes, length, get_or, ltb, ◌==◌, if◌then◌else◌,
}
use sql_ai_tools.Text.{bytes_eq}
use sql_ai_tools.Position.{Position}
use sql_ai_tools.Suggest.{
  count_from, cost, cell, is_empty, to_lower, max_distance, Suggestion, suggest_with_distance,
}

-- The test `a[i-1] == b[j-2] && a[i-2] == b[j-1]` with the bound checks on `i` and `j`.
unfoldable pub swapped : Option ℕ → ℕ → Option ℕ → ℕ → Bool
swapped (some x') x (some y') y = x == y' && x' == y
swapped _ x _ y = false

-- `if t := prevPrev[j-2] + 1; t < best { best = t }`.
unfoldable pub least : Bool → ℕ → ℕ → ℕ
least found best t = if found then (if ltb t best then t else best) else best

-- The inner loop: `older` is `prevPrev` from `prevPrev[j-2]` on, `prev` from `prev[j-1]` on, `left` is
-- `curr[j-1]`, and `y'` is `b[j-2]`. A row that is too short, on which the code would panic, ends it.
unfoldable pub fill_aligned : Option ℕ → ℕ → Option ℕ → Bytes → List ℕ → List ℕ → ℕ → List ℕ
unfolding cell cost swapped least
fill_aligned x' x y' [] older prev left = []
fill_aligned x' x y' (y ∷ b) (corner ∷ older) (diagonal ∷ above ∷ prev) left =
    let best = cell (above + 1) (left + 1) (diagonal + cost x y) in
    let here = least (swapped x' x y' y) best (corner + 1) in
    here ∷ fill_aligned x' x (some y) b older (above ∷ prev) here
fill_aligned x' x y' (y ∷ b) _ _ left = []

-- The outer loop from row `i` on. At `j = 1` nothing of `prevPrev` is read: a zero stands in front.
unfoldable pub fill_aligned_rows : ℕ → Option ℕ → Bytes → Bytes → List ℕ → List ℕ → List ℕ
unfolding fill_aligned
fill_aligned_rows i x' [] b prev_prev prev = prev
fill_aligned_rows i x' (x ∷ a) b prev_prev prev =
    fill_aligned_rows (suc i) (some x) a b prev
      (i ∷ fill_aligned x' x none b (0 ∷ prev_prev) prev i)

-- `make([]int, len(b)+1)`.
unfoldable pub zeros : Bytes → List ℕ
zeros [] = 0 ∷ []
zeros (y ∷ b) = 0 ∷ zeros b

unfoldable pub damerau_levenshtein : Bytes → Bytes → ℕ
unfolding bytes_eq fill_aligned_rows count_from zeros
damerau_levenshtein a b =
    if bytes_eq a b
    then 0
    else if length a == 0
    then length b
    else if length b == 0
    then length a
    else get_or (fill_aligned_rows 1 none a b (zeros b) (count_from 0 b)) (length b) 0

abbrev pub keyword_suggestion_distance_cap : ℕ
keyword_suggestion_distance_cap = 2

unfoldable pub listed_in : List Bytes → Bytes → Bool
unfolding bytes_eq
listed_in [] s = false
listed_in (k ∷ ks) s = bytes_eq k s || listed_in ks s

-- `IsKeyword`; `lowerASCII` is the lower case of ASCII.
unfoldable pub is_keyword : List Bytes → Bytes → Bool
unfolding is_empty to_lower listed_in
is_keyword keywords token = if is_empty token then false else listed_in keywords (to_lower token)

-- `SuggestKeyword`.
unfoldable pub suggest_keyword : List Bytes → Bytes → Option Position → List Suggestion
unfolding is_empty is_keyword
suggest_keyword keywords token none = []
suggest_keyword keywords token (some p) =
    let per_len = max_distance (length token) in
    let limit =
      if ltb per_len keyword_suggestion_distance_cap
      then per_len
      else keyword_suggestion_distance_cap in
    if is_empty token
    then []
    else if is_keyword keywords token
    then []
    else suggest_with_distance token keywords (some p) limit damerau_levenshtein
        (codes "damerau_levenshtein_distance") true
