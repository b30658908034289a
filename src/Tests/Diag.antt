-- ===== src/Tests/Diag.antt =====
-- Errors of a cluster and of the parser on concrete texts.
use sql_ai_tools.Prelude.{
  arith, inl, inr, ◌≡◌, refl, List, [], ◌∷◌, ◌++◌, some, none, Bytes, codes, length, take,
}
use sql_ai_tools.Position.{Position, position_at}
use sql_ai_tools.Diag.{
  unknown_table, ServerError, server_error, from_cluster_error, width, identifier_at,
}
use sql_ai_tools.Diag.Runes.{concat, IsLetter, cluster_position-rune, identifier_at-token}

-- An accented letter of two bytes between two letters.
abbrev word : List Bytes
word = (97 ∷ []) ∷ (195 ∷ 169 ∷ []) ∷ (98 ∷ []) ∷ []

abbrev missing : ServerError
missing = record {
  code = codes "42P01";
  severity_unlocalized = [];
  severity = codes "FEHLER";
  message = [];
  position = 3;
}

missing_run :
    ((from_cluster_error (server_error missing) (concat word)).severity ≡ codes "FEHLER")
    × ((from_cluster_error (server_error missing) (concat word)).category ≡ unknown_table)
unfolding from_cluster_error
missing_run = (refl, refl)

cluster_position-rune_example :
    (missing.position ≡ 3
      → (from_cluster_error (server_error missing) (concat word)).position
        ≡ some (position_at (concat word) (length (concat (take 2 word)))))
    × (missing.position ≡ 0
        → (from_cluster_error (server_error missing) (concat word)).position ≡ none)
unfolding width
cluster_position-rune_example =
    cluster_position-rune word missing 2 ((λ rest. refl), ((λ rest. refl), ((λ rest. refl), tt)))
      (λ e. cc)

abbrev token : Position
token = record { line = 1; column = 8; byte_offset = 7 }

identifier_at-token_example :
    (IsLetter 102
      → identifier_at (codes "select " ++ 102 ∷ (codes "rm1" ++ codes " t")) (some token)
        ≡ codes "frm1")
    × ((¬ IsLetter 102)
        → identifier_at (codes "select " ++ 102 ∷ (codes "rm1" ++ codes " t")) (some token) ≡ [])
identifier_at-token_example =
    identifier_at-token (codes "select ") 102 (codes "rm1") (codes " t") token refl
      (
        inl (inr (inl (omega arith, omega arith))),
        (inl (inr (inl (omega arith, omega arith))), (inr (omega arith, omega arith), tt)),
      )
      (λ h. ground (arith, h))
