-- ===== src/Strip/Lines.antt =====
-- `strings.SplitAfter(s, "\n")`: the pieces keep their newlines, and the last may be empty.
use sql_ai_tools.Prelude.{◌≡◌, refl, List, [], ◌∷◌, ◌++◌, Bytes, ◌==◌, if◌then◌else◌, arith}

unfoldable pub split_after_at : Bytes → Bytes × List Bytes
split_after_at [] = ([], [])
split_after_at (c ∷ s) =
    let (first, rest) = split_after_at s in
    if c == 10 then (c ∷ [], first ∷ rest) else (c ∷ first, rest)

unfoldable pub split_after : Bytes → List Bytes
unfolding split_after_at
split_after s = let (first, rest) = split_after_at s in first ∷ rest

unfoldable pub concat : List Bytes → Bytes
concat [] = []
concat (l ∷ ls) = l ++ concat ls

pub concat-split_after : (s : Bytes) → concat (split_after s) ≡ s
unfolding split_after concat
concat-split_after [] = refl
concat-split_after (c ∷ s) = ground (arith, concat-split_after s)
