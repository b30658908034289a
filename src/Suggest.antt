-- ===== src/Suggest.antt =====
-- internal/diag/suggest.go: the "did you mean?" ranker. Texts are bytes, and lower case is that of
-- ASCII. The confidence of a suggestion, a floating-point number, is left out.
pub mod Distance
pub mod Promise
pub mod Ranking
use sql_ai_tools.Prelude.{
  ℕ, zero, suc, ◌+◌, ◌-◌, min, Bool, true, false, ◌&&◌, ◌||◌, not, List, [], ◌∷◌, Option, none,
  some, Bytes, codes, length, take, get_or, ltb, leb, ◌==◌, if◌then◌else◌,
}
use sql_ai_tools.Text.{bytes_eq}
use sql_ai_tools.Position.{Position}

-- The row of distances to the empty text: `prev[j] = j`, from `j` on.
unfoldable pub count_from : ℕ → Bytes → List ℕ
count_from j [] = j ∷ []
count_from j (y ∷ b) = j ∷ count_from (suc j) b

unfoldable pub cost : ℕ → ℕ → ℕ
cost x y = if x == y then 0 else 1

unfoldable pub cell : ℕ → ℕ → ℕ → ℕ
cell deletion insertion substitution = min (min deletion insertion) substitution

-- The inner loop: `prev` from `prev[j-1]` on, and `left` is `curr[j-1]`. A row that is too short, on
-- which the code would panic, ends the row.
unfoldable pub fill : ℕ → Bytes → List ℕ → ℕ → List ℕ
unfolding cell cost
fill x [] prev left = []
fill x (y ∷ b) (diagonal ∷ above ∷ prev) left =
    let here = cell (above + 1) (left + 1) (diagonal + cost x y) in
    here ∷ fill x b (above ∷ prev) here
fill x (y ∷ b) _ left = []

-- The outer loop, from row `i` on.
unfoldable pub fill_rows : ℕ → Bytes → Bytes → List ℕ → List ℕ
unfolding fill
fill_rows i [] b prev = prev
fill_rows i (x ∷ a) b prev = fill_rows (suc i) a b (i ∷ fill x b prev i)

unfoldable pub levenshtein : Bytes → Bytes → ℕ
unfolding fill_rows count_from
levenshtein a b =
    if bytes_eq a b
    then 0
    else if length a == 0
    then length b
    else if length b == 0
    then length a
    else get_or (fill_rows 1 a b (count_from 0 b)) (length b) 0

unfoldable pub abs_diff : ℕ → ℕ → ℕ
abs_diff a b = if ltb b a then a - b else b - a

unfoldable pub max_distance : ℕ → ℕ
max_distance name_len = if leb name_len 3 then 1 else if leb name_len 6 then 2 else 3

lower_byte : ℕ → ℕ
lower_byte c = if leb b'A' c && leb c b'Z' then c + 32 else c

-- `strings.ToLower`.
unfoldable pub to_lower : Bytes → Bytes
unfolding lower_byte
to_lower [] = []
to_lower (c ∷ s) = lower_byte c ∷ to_lower s

-- `strings.EqualFold`.
unfoldable pub equal_fold : Bytes → Bytes → Bool
unfolding to_lower bytes_eq
equal_fold s t = bytes_eq (to_lower s) (to_lower t)

pub record Scored : Type 0 where
  pub name : Bytes
  pub distance : ℕ

unfoldable pub is_empty : Bytes → Bool
is_empty [] = true
is_empty (c ∷ s) = false

-- The loop over the candidates.
module _ (dist : Bytes → Bytes → ℕ) (misspelled : Bytes) (limit : ℕ) where
  unfoldable pub score : Bytes → Option Scored
  unfolding is_empty
  score cand =
      let d = dist (to_lower misspelled) (to_lower cand) in
      if is_empty cand || equal_fold cand misspelled
      then none
      else if ltb limit (abs_diff (length cand) (length misspelled))
      then none
      else if ltb limit d
      then none
      else some (record { name = cand; distance = d })

  add_hit : Option Scored → List Scored → List Scored
  add_hit none hits = hits
  add_hit (some h) hits = h ∷ hits

  unfoldable pub scored : List Bytes → List Scored
  unfolding score add_hit
  scored [] = []
  scored (cand ∷ cands) = add_hit (score cand) (scored cands)

-- `<` on strings.
unfoldable pub bytes_lt : Bytes → Bytes → Bool
bytes_lt s [] = false
bytes_lt [] (d ∷ t) = true
bytes_lt (c ∷ s) (d ∷ t) = let later = bytes_lt s t in if c == d then later else ltb c d

-- The order of `sort.Slice`.
unfoldable pub before : Bytes → Bool → Scored → Scored → Bool
before misspelled prefer_same_len i j =
    let i_same = length i.name == length misspelled in
    let j_same = length j.name == length misspelled in
    if not (i.distance == j.distance)
    then ltb i.distance j.distance
    else if prefer_same_len && ((i_same && not j_same) || (j_same && not i_same))
    then i_same
    else bytes_lt i.name j.name

module _ (misspelled : Bytes) (prefer_same_len : Bool) where
  unfoldable pub insert_hit : Scored → List Scored → List Scored
  insert_hit h [] = h ∷ []
  insert_hit h (x ∷ xs) =
      let rest = insert_hit h xs in
      if before misspelled prefer_same_len x h then x ∷ rest else h ∷ x ∷ xs

  unfoldable pub sort_hits : List Scored → List Scored
  unfolding insert_hit
  sort_hits [] = []
  sort_hits (h ∷ hs) = insert_hit h (sort_hits hs)

abbrev pub max_suggestions : ℕ
max_suggestions = 3

-- `output.Suggestion` without its confidence; the reason is the metric's prefix and the distance.
pub record Suggestion : Type 0 where
  pub replacement : Bytes
  pub range_start : ℕ
  pub range_end : ℕ
  pub reason_prefix : Bytes
  pub distance : ℕ

suggestions_of : Bytes → Bytes → ℕ → List Scored → List Suggestion
suggestions_of misspelled reason start [] = []
suggestions_of misspelled reason start (h ∷ hs) =
    record {
      replacement = h.name;
      range_start = start;
      range_end = start + length misspelled;
      reason_prefix = reason;
      distance = h.distance;
    }
    ∷ suggestions_of misspelled reason start hs

-- `suggestWithDistance`. No hit, like any of the early returns, gives the empty list.
unfoldable pub suggest_with_distance :
    Bytes → List Bytes → Option Position → ℕ → (Bytes → Bytes → ℕ) → Bytes → Bool → List Suggestion
unfolding suggestions_of is_empty
suggest_with_distance misspelled candidates none limit dist reason prefer_same_len = []
suggest_with_distance misspelled candidates (some p) limit dist reason prefer_same_len =
    if is_empty misspelled || limit == 0
    then []
    else suggestions_of misspelled reason p.byte_offset (
        take max_suggestions
          (sort_hits misspelled prefer_same_len (scored dist misspelled limit candidates)))

-- `Suggest`.
unfoldable pub suggest : Bytes → List Bytes → Option Position → List Suggestion
unfolding suggest_with_distance
suggest misspelled candidates p =
    suggest_with_distance misspelled candidates p (max_distance (length misspelled)) levenshtein
      (codes "levenshtein_distance") false
