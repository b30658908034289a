-- ===== src/Suggest/Distance.antt =====
-- The two-row table of suggest.go computes the edit distance, and what follows for the filters.
use sql_ai_tools.Prelude.{
  ℕ, suc, ◌+◌, ◌≤◌, min, max, ◌≡◌, ◌↔◌, refl, sym, ap, ◌∙◌, true, List, [], ◌∷◌, Bytes, arith,
  length, get_or, ◌==◌, if◌then◌else◌, Bool-cases, inl, inr,
}
use sql_ai_tools.Text.{bytes_eq}
use sql_ai_tools.Text.Laws.{bytes_eq_iff}
use sql_ai_tools.Suggest.{count_from, fill, fill_rows, levenshtein, abs_diff}

-- The edit distance by recursion on the last bytes: the lists are texts from their ends.
unfoldable pub edit : Bytes → Bytes → ℕ
edit [] b = length b
edit (x ∷ a) [] = suc (length a)
edit (x ∷ a) (y ∷ b) =
    min (min (edit a (y ∷ b) + 1) (edit (x ∷ a) b + 1)) (edit a b + (if x == y then 0 else 1))

-- `s`, read backwards, in front of `r`.
unfoldable pub rev_onto : Bytes → Bytes → Bytes
rev_onto [] r = r
rev_onto (c ∷ s) r = rev_onto s (c ∷ r)

edit_nil_right : (a : Bytes) → edit a [] ≡ length a
unfolding edit
edit_nil_right [] = refl
edit_nil_right (x ∷ a) = refl

-- The distances of `ra` to the texts that go on from `rb` through `b`.
row_tail : Bytes → Bytes → Bytes → List ℕ
row_tail ra rb [] = []
row_tail ra rb (y ∷ b) = edit ra (y ∷ rb) ∷ row_tail ra (y ∷ rb) b

row : Bytes → Bytes → Bytes → List ℕ
row ra rb b = edit ra rb ∷ row_tail ra rb b

count_from-row : (rb b : Bytes) → count_from (length rb) b ≡ row [] rb b
unfolding count_from row row_tail edit
count_from-row rb [] = refl
count_from-row rb (y ∷ b) = ap (λ r. length rb ∷ r) (count_from-row (y ∷ rb) b)

fill-row :
    (x : ℕ) (ra rb b : Bytes) → fill x b (row ra rb b) (edit (x ∷ ra) rb) ≡ row_tail (x ∷ ra) rb b
unfolding fill row row_tail edit
fill-row x ra rb [] = refl
fill-row x ra rb (y ∷ b) = ap (λ r. edit (x ∷ ra) (y ∷ rb) ∷ r) (fill-row x ra (y ∷ rb) b)

fill_rows-row :
    (a ra b : Bytes) → fill_rows (suc (length ra)) a b (row ra [] b) ≡ row (rev_onto a ra) [] b
unfolding fill_rows rev_onto row edit
fill_rows-row [] ra b = refl
fill_rows-row (x ∷ a) ra b =
    ap (λ r. fill_rows (suc (suc (length ra))) a b (suc (length ra) ∷ r)) (fill-row x ra [] b)
    ∙ fill_rows-row a (x ∷ ra) b

get_or-row : (ra rb b : Bytes) → get_or (row ra rb b) (length b) 0 ≡ edit ra (rev_onto b rb)
unfolding row row_tail rev_onto
get_or-row ra rb [] = refl
get_or-row ra rb (y ∷ b) = get_or-row ra (y ∷ rb) b

edit_self : (a : Bytes) → edit a a ≡ 0
unfolding edit
edit_self [] = refl
edit_self (x ∷ a) = ground (arith, edit_self a)

abs_diff-le-edit :
    (a b : Bytes) → (length a ≤ length b + edit a b) × (length b ≤ length a + edit a b)
unfolding edit
abs_diff-le-edit [] b = omega arith
abs_diff-le-edit (x ∷ a) [] = omega arith
abs_diff-le-edit (x ∷ a) (y ∷ b) =
    omega (arith, abs_diff-le-edit a (y ∷ b), abs_diff-le-edit (x ∷ a) b, abs_diff-le-edit a b)

pub length-rev_onto : (s r : Bytes) → length (rev_onto s r) ≡ length s + length r
unfolding rev_onto
length-rev_onto [] r = omega arith
length-rev_onto (c ∷ s) r = omega (arith, length-rev_onto s (c ∷ r))

table :
    (a b : Bytes)
    → get_or (fill_rows 1 a b (count_from 0 b)) (length b) 0 ≡ edit (rev_onto a []) (rev_onto b [])
table a b = rw (count_from-row [] b, fill_rows-row a [] b) (get_or-row (rev_onto a []) [] b)

pub length_zero : (s : Bytes) → (length s == 0) ≡ true → s ≡ []
length_zero [] h = refl
length_zero (c ∷ s) h = absurd (ground arith)

-- The table gives the edit distance, on every branch: the least number of insertions, deletions and
-- substitutions by the recursion on the last bytes.
pub levenshtein-edit : (a b : Bytes) → levenshtein a b ≡ edit (rev_onto a []) (rev_onto b [])
unfolding levenshtein
levenshtein-edit a b = elim (Bool-cases (bytes_eq a b)) [
  | inl e ↦ rw e (sym (same_text a b ((bytes_eq_iff a b).0 e)))
  | inr e ↦ elim (Bool-cases (length a == 0)) [
    | inl n ↦ rw (e, n) (sym (no_left a b (length_zero a n)))
    | inr n ↦ elim (Bool-cases (length b == 0)) [
      | inl m ↦ rw (e, n, m) (sym (no_right a b (length_zero b m)))
      | inr m ↦ rw (e, n, m) (table a b)
    ]
  ]
]
  where
    same_text : (a b : Bytes) → a ≡ b → edit (rev_onto a []) (rev_onto b []) ≡ 0
    same_text a b h = rw h (edit_self (rev_onto b []))

    no_left : (a b : Bytes) → a ≡ [] → edit (rev_onto a []) (rev_onto b []) ≡ length b
    no_left a b h = rw h (unfold rev_onto edit in omega (arith, length-rev_onto b []))

    no_right : (a b : Bytes) → b ≡ [] → edit (rev_onto a []) (rev_onto b []) ≡ length a
    no_right a b h =
        rw h
          (unfold rev_onto in edit_nil_right (rev_onto a []) ∙ omega (arith, length-rev_onto a []))

rev_onto-rev_onto : (s r : Bytes) → rev_onto (rev_onto s r) [] ≡ rev_onto r s
unfolding rev_onto
rev_onto-rev_onto [] r = refl
rev_onto-rev_onto (c ∷ s) r = rev_onto-rev_onto s (c ∷ r)

edit_comm : (a b : Bytes) → edit a b ≡ edit b a
unfolding edit
edit_comm [] [] = refl
edit_comm [] (y ∷ b) = refl
edit_comm (x ∷ a) [] = refl
edit_comm (x ∷ a) (y ∷ b) = ground (arith, edit_comm a (y ∷ b), edit_comm (x ∷ a) b, edit_comm a b)

edit_zero : (a b : Bytes) → edit a b ≡ 0 → a ≡ b
unfolding edit
edit_zero [] [] h = refl
edit_zero [] (y ∷ b) h = absurd (omega arith)
edit_zero (x ∷ a) [] h = absurd (omega arith)
edit_zero (x ∷ a) (y ∷ b) h = ground (arith, edit_zero a b)

edit-le-max : (a b : Bytes) → edit a b ≤ max (length a) (length b)
unfolding edit
edit-le-max [] b = omega arith
edit-le-max (x ∷ a) [] = omega arith
edit-le-max (x ∷ a) (y ∷ b) = ground (arith, edit-le-max a b)

-- The computed distance is symmetric and zero exactly between equal texts. It is at least the
-- difference of the lengths, which the filter on lengths uses, and at most the longer length.
pub levenshtein_metric :
    (a b : Bytes)
    → (levenshtein a b ≡ levenshtein b a)
      × ((levenshtein a b ≡ 0) ↔ (a ≡ b))
      × (abs_diff (length a) (length b) ≤ levenshtein a b)
      × (levenshtein a b ≤ max (length a) (length b))
unfolding rev_onto
levenshtein_metric a b = (
  levenshtein-edit a b ∙ edit_comm ra rb ∙ sym (levenshtein-edit b a),
  (zero_equal, λ e. rw e (levenshtein-edit b b ∙ edit_self rb)),
  unfold abs_diff in
      ground (
        arith,
        levenshtein-edit a b,
        abs_diff-le-edit ra rb,
        length-rev_onto a [],
        length-rev_onto b [],
      ),
  omega
      (arith, levenshtein-edit a b, edit-le-max ra rb, length-rev_onto a [], length-rev_onto b []),
)
  where
    ra : Bytes
    ra = rev_onto a []

    rb : Bytes
    rb = rev_onto b []

    zero_equal : levenshtein a b ≡ 0 → a ≡ b
    zero_equal h =
        let same : ra ≡ rb = edit_zero ra rb (sym (levenshtein-edit a b) ∙ h) in
        sym (rev_onto-rev_onto a []) ∙ ap (λ r. rev_onto r []) same ∙ rev_onto-rev_onto b []
