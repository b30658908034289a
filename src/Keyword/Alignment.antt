-- ===== src/Keyword/Alignment.antt =====
-- The table of three rows against a recursion on the texts.
use sql_ai_tools.Prelude.{
  min, ltb, ◌&&◌, ℕ, suc, ◌+◌, ◌≡◌, ◌≤◌, ap, ◌∙◌, sym, refl, Bool, true, false, List, [], ◌∷◌,
  Option, none, some, Bytes, arith, length, get_or, ◌==◌, Bool-cases, inl, inr, if◌then◌else◌,
}
use sql_ai_tools.Text.{bytes_eq}
use sql_ai_tools.Text.Laws.{bytes_eq_iff}
use sql_ai_tools.Suggest.{levenshtein, count_from, cost, cell}
use sql_ai_tools.Suggest.Distance.{edit, rev_onto, length-rev_onto, length_zero, levenshtein-edit}
use sql_ai_tools.Keyword.{
  swapped, least, fill_aligned, fill_aligned_rows, zeros, damerau_levenshtein,
}

-- The byte in front, if there is one.
unfoldable pub front : Bytes → Option ℕ
front [] = none
front (x ∷ a) = some x

-- The optimal string alignment of two texts, on their first bytes: insertions, deletions,
-- substitutions, and transpositions of neighbours, no byte in more than one of these last.
unfoldable pub align : Bytes → Bytes → ℕ
align [] b = length b
align (x ∷ a) [] = suc (length a)
align (x ∷ x' ∷ a) (y ∷ y' ∷ b) =
    let best =
      min (min (align (x' ∷ a) (y ∷ y' ∷ b) + 1) (align (x ∷ x' ∷ a) (y' ∷ b) + 1))
        (align (x' ∷ a) (y' ∷ b) + (if x == y then 0 else 1)) in
    let swap = align a b + 1 in
    if x == y' && x' == y then (if ltb swap best then swap else best) else best
align (x ∷ a) (y ∷ b) =
    min (min (align a (y ∷ b) + 1) (align (x ∷ a) b + 1)) (align a b + (if x == y then 0 else 1))

-- The distances of `ra` to the texts that go on from `rb` through `b`.
align_tail : Bytes → Bytes → Bytes → List ℕ
align_tail ra rb [] = []
align_tail ra rb (y ∷ b) = align ra (y ∷ rb) ∷ align_tail ra (y ∷ rb) b

align_row : Bytes → Bytes → Bytes → List ℕ
align_row ra rb b = align ra rb ∷ align_tail ra rb b

-- The row two above, from one place further left.
older_row : Bytes → Bytes → Bytes → List ℕ
older_row ra [] b = 0 ∷ align_row ra [] b
older_row ra (y' ∷ rb) b = align ra rb ∷ align_row ra (y' ∷ rb) b

align_nil_right : (a : Bytes) → align a [] ≡ length a
unfolding align
align_nil_right [] = refl
align_nil_right (x ∷ a) = refl

count_from-align_row : (rb b : Bytes) → count_from (length rb) b ≡ align_row [] rb b
unfolding count_from align_row align_tail align
count_from-align_row rb [] = refl
count_from-align_row rb (y ∷ b) = ap (λ r. length rb ∷ r) (count_from-align_row (y ∷ rb) b)

fill_first :
    (c x : ℕ) (rb b : Bytes)
    → fill_aligned none x (front rb) b (c ∷ zeros b) (align_row [] rb b) (align (x ∷ []) rb)
      ≡ align_tail (x ∷ []) rb b
unfolding fill_aligned cell cost align_row align_tail align zeros front swapped least
fill_first c x rb [] = refl
fill_first c x rb (y ∷ b) = ap (λ r. align (x ∷ []) (y ∷ rb) ∷ r) (fill_first 0 x (y ∷ rb) b)

fill_later :
    (x x' : ℕ) (ra rb b : Bytes)
    → fill_aligned
        (some x')
        x
        (front rb)
        b
        (older_row ra rb b)
        (align_row (x' ∷ ra) rb b)
        (align (x ∷ x' ∷ ra) rb)
      ≡ align_tail (x ∷ x' ∷ ra) rb b
unfolding fill_aligned cell cost align_row align_tail align older_row front swapped least
fill_later x x' ra rb [] = refl
fill_later x x' ra [] (y ∷ b) =
    ap (λ r. align (x ∷ x' ∷ ra) (y ∷ []) ∷ r) (fill_later x x' ra (y ∷ []) b)
fill_later x x' ra (y' ∷ rb) (y ∷ b) =
    ap (λ r. align (x ∷ x' ∷ ra) (y ∷ y' ∷ rb) ∷ r) (fill_later x x' ra (y ∷ y' ∷ rb) b)

rows_later :
    (a : Bytes) (x' : ℕ) (ra b : Bytes)
    → fill_aligned_rows
        (suc (suc (length ra)))
        (some x')
        a
        b
        (align_row ra [] b)
        (align_row (x' ∷ ra) [] b)
      ≡ align_row (rev_onto a (x' ∷ ra)) [] b
unfolding fill_aligned_rows rev_onto align_row align older_row front
rows_later [] x' ra b = refl
rows_later (x ∷ a) x' ra b =
    ap
      (λ r.
        fill_aligned_rows (suc (suc (suc (length ra)))) (some x) a b (align_row (x' ∷ ra) [] b)
          (suc (suc (length ra)) ∷ r))
      (fill_later x x' ra [] b)
    ∙ rows_later a x (x' ∷ ra) b

rows_first :
    (a b : Bytes)
    → fill_aligned_rows 1 none a b (zeros b) (align_row [] [] b) ≡ align_row (rev_onto a []) [] b
unfolding fill_aligned_rows rev_onto align_row align front
rows_first [] b = refl
rows_first (x ∷ a) b =
    ap (λ r. fill_aligned_rows 2 (some x) a b (align_row [] [] b) (1 ∷ r)) (fill_first 0 x [] b)
    ∙ rows_later a x [] b

get_or-align_row :
    (ra rb b : Bytes) → get_or (align_row ra rb b) (length b) 0 ≡ align ra (rev_onto b rb)
unfolding align_row align_tail rev_onto
get_or-align_row ra rb [] = refl
get_or-align_row ra rb (y ∷ b) = get_or-align_row ra (y ∷ rb) b

align_self : (a : Bytes) → align a a ≡ 0
unfolding align
align_self [] = refl
align_self (x ∷ []) = ground arith
align_self (x ∷ x' ∷ a) = ground (arith, align_self (x' ∷ a))

aligned_table :
    (a b : Bytes)
    → get_or (fill_aligned_rows 1 none a b (zeros b) (count_from 0 b)) (length b) 0
      ≡ align (rev_onto a []) (rev_onto b [])
aligned_table a b =
    rw (count_from-align_row [] b, rows_first a b) (get_or-align_row (rev_onto a []) [] b)

-- The three rolling rows give the distance of the optimal string alignment, on every branch: the
-- least number of insertions, deletions, substitutions and transpositions of neighbouring bytes, no
-- byte moved twice, by the recursion on the last bytes.
pub damerau_levenshtein-align :
    (a b : Bytes) → damerau_levenshtein a b ≡ align (rev_onto a []) (rev_onto b [])
unfolding damerau_levenshtein
damerau_levenshtein-align a b = elim (Bool-cases (bytes_eq a b)) [
  | inl e ↦ rw e (sym (same_text a b ((bytes_eq_iff a b).0 e)))
  | inr e ↦ elim (Bool-cases (length a == 0)) [
    | inl n ↦ rw (e, n) (sym (no_left a b (length_zero a n)))
    | inr n ↦ elim (Bool-cases (length b == 0)) [
      | inl m ↦ rw (e, n, m) (sym (no_right a b (length_zero b m)))
      | inr m ↦ rw (e, n, m) (aligned_table a b)
    ]
  ]
]
  where
    same_text : (a b : Bytes) → a ≡ b → align (rev_onto a []) (rev_onto b []) ≡ 0
    same_text a b h = rw h (align_self (rev_onto b []))

    no_left : (a b : Bytes) → a ≡ [] → align (rev_onto a []) (rev_onto b []) ≡ length b
    no_left a b h = rw h (unfold rev_onto align in omega (arith, length-rev_onto b []))

    no_right : (a b : Bytes) → b ≡ [] → align (rev_onto a []) (rev_onto b []) ≡ length a
    no_right a b h =
        rw h
          (unfold rev_onto in align_nil_right (rev_onto a []) ∙ omega (arith, length-rev_onto a []))

least-le : (t : Bool) (best other : ℕ) → least t best other ≤ best
unfolding least
least-le true best other = ground arith
least-le false best other = omega arith

trans_le : {a b c : ℕ} → a ≤ b → b ≤ c → a ≤ c
trans_le h k = omega arith

cell_mono :
    (a b c a' b' c' : ℕ)
    → a ≤ a'
    → b ≤ b'
    → c ≤ c'
    → cell (a + 1) (b + 1) c ≤ cell (a' + 1) (b' + 1) c'
unfolding cell
cell_mono a b c a' b' c' h k l = omega arith

-- The last clause of `align` in the words of the code.
align-least :
    (x x' y y' : ℕ) (a b : Bytes)
    → align (x ∷ x' ∷ a) (y ∷ y' ∷ b)
      ≡ least
          (swapped (some x') x (some y') y)
          (cell
            (align (x' ∷ a) (y ∷ y' ∷ b) + 1)
            (align (x ∷ x' ∷ a) (y' ∷ b) + 1)
            (align (x' ∷ a) (y' ∷ b) + cost x y))
          (align a b + 1)
unfolding align cell cost least swapped
align-least x x' y y' a b = refl

align-le-edit : (a b : Bytes) → align a b ≤ edit a b
unfolding align edit cell cost
align-le-edit [] b = omega arith
align-le-edit (x ∷ a) [] = omega arith
align-le-edit (x ∷ []) (y ∷ b) =
    cell_mono _ _ _ _ _ _ (align-le-edit [] (y ∷ b)) (align-le-edit (x ∷ []) b)
      (omega (arith, align-le-edit [] b))
align-le-edit (x ∷ x' ∷ a) (y ∷ []) =
    cell_mono _ _ _ _ _ _ (align-le-edit (x' ∷ a) (y ∷ [])) (align-le-edit (x ∷ x' ∷ a) [])
      (omega (arith, align-le-edit (x' ∷ a) []))
align-le-edit (x ∷ x' ∷ a) (y ∷ y' ∷ b) =
    let here : cell (align (x' ∷ a) (y ∷ y' ∷ b) + 1) (align (x ∷ x' ∷ a) (y' ∷ b) + 1)
          (align (x' ∷ a) (y' ∷ b) + cost x y)
        ≤ edit (x ∷ x' ∷ a) (y ∷ y' ∷ b) =
      cell_mono _ _ _ _ _ _ (align-le-edit (x' ∷ a) (y ∷ y' ∷ b))
        (align-le-edit (x ∷ x' ∷ a) (y' ∷ b)) (omega (arith, align-le-edit (x' ∷ a) (y' ∷ b))) in
    rw (align-least x x' y y' a b)
      (trans_le (least-le (swapped (some x') x (some y') y) _ (align a b + 1)) here)

-- The keyword distance is at most the Levenshtein distance.
damerau_levenshtein-le-levenshtein : (a b : Bytes) → damerau_levenshtein a b ≤ levenshtein a b
damerau_levenshtein-le-levenshtein a b = omega (
  arith,
  damerau_levenshtein-align a b,
  levenshtein-edit a b,
  align-le-edit (rev_onto a []) (rev_onto b []),
)
