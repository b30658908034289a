-- ===== src/Risk/Mixed.antt =====
-- Where the findings of the two rules about explicit transactions stand.
use sql_ai_tools.Prelude.{
  ℕ, zero, suc, ◌≡◌, refl, ap, sym, length, ◌∙◌, Bool, true, false, ◌||◌, List, [], ◌∷◌, ◌++◌, map,
  Option, some, not, arith, get_elem?, if◌then◌else◌,
}
use sql_ai_tools.Position.{Position}
use sql_ai_tools.Risk.{Finding, MultiCheckInput}
use sql_ai_tools.Risk.Tree.{StatementType, ddl, dml, Statement}
use sql_ai_tools.Risk.Txn.{
  TxnBlock, brackets, inner, is_ddl, is_dml, extra_ddls, ddls_in_blocks, check_multiple_ddl,
  has_type, mixed_at, mixed_in_blocks, check_mixed,
}
use sql_ai_tools.Risk.Between.{between, inner-between}
use sql_ai_tools.Risk.Blocks.{spans, explicit_txn_blocks-spans}

-- The positions of the statements of one type.
pub ddl_positions : List (Statement × Position) → List Position
ddl_positions [] = []
ddl_positions ((s, p) ∷ rest) = keep s.statement_type (ddl_positions rest)
  where
    keep : StatementType → List Position → List Position
    keep ddl later = p ∷ later
    keep _ later = later

pub dml_positions : List (Statement × Position) → List Position
dml_positions [] = []
dml_positions ((s, p) ∷ rest) = keep s.statement_type (dml_positions rest)
  where
    keep : StatementType → List Position → List Position
    keep dml later = p ∷ later
    keep _ later = later

abbrev pub beyond_first : List Position → List Position
beyond_first [] = []
beyond_first (p ∷ later) = later

-- The position of a statement by its index, if there is one.
pub position_of : ℕ → List Position → List Position
position_of i [] = []
position_of zero (p ∷ positions) = p ∷ []
position_of (suc i) (p ∷ positions) = position_of i positions

abbrev pub where_both : List Position → List Position → List Position → List Position
where_both (d ∷ ds) (m ∷ ms) start = start
where_both _ _ start = []

abbrev pub within : MultiCheckInput → TxnBlock → List (Statement × Position)
within input b = between b.first b.last 0 input.stmts input.positions

abbrev pub all_of : (TxnBlock → List Position) → List TxnBlock → List Position
all_of f [] = []
all_of f (b ∷ blocks) = f b ++ all_of f blocks

-- The schema changes of a block beyond the first.
abbrev pub extra_changes : MultiCheckInput → TxnBlock → List Position
extra_changes input b = beyond_first (ddl_positions (within input b))

-- The start of a block that has a schema change and a data change.
abbrev pub mixed_start : MultiCheckInput → TxnBlock → List Position
mixed_start input b =
    where_both (ddl_positions (within input b)) (dml_positions (within input b))
      (position_of b.first input.positions)

abbrev pub places : List Finding → List (Option Position)
places = map (λ (f : Finding). f.position)

abbrev pub somes : List Position → List (Option Position)
somes = map some

map-append : {A B : Type 0} (f : A → B) (xs ys : List A) → map f (xs ++ ys) ≡ map f xs ++ map f ys
map-append f [] ys = refl
map-append f (x ∷ xs) ys = ap (λ zs. f x ∷ zs) (map-append f xs ys)

extra_ddls-marked :
    (xs : List (Statement × Position)) → places (extra_ddls true xs) ≡ somes (ddl_positions xs)
unfolding extra_ddls ddl_positions
extra_ddls-marked [] = refl
extra_ddls-marked ((s, at) ∷ xs) = marked (extra_ddls-marked xs) s.statement_type refl
  where
    marked :
        places (extra_ddls true xs) ≡ somes (ddl_positions xs)
        → (t : StatementType) → s.statement_type ≡ t
        → places (extra_ddls true ((s, at) ∷ xs)) ≡ somes (ddl_positions ((s, at) ∷ xs))
    marked ih ddl e = rw (e, ih) refl
    marked ih _ e = rw (e, ih) refl

extra_ddls-places :
    (xs : List (Statement × Position))
    → places (extra_ddls false xs) ≡ somes (beyond_first (ddl_positions xs))
unfolding extra_ddls ddl_positions
extra_ddls-places [] = refl
extra_ddls-places ((s, at) ∷ xs) = extras (extra_ddls-places xs) s.statement_type refl
  where
    extras :
        places (extra_ddls false xs) ≡ somes (beyond_first (ddl_positions xs))
        → (t : StatementType) → s.statement_type ≡ t
        → places (extra_ddls false ((s, at) ∷ xs))
          ≡ somes (beyond_first (ddl_positions ((s, at) ∷ xs)))
    extras ih ddl e = rw (e, extra_ddls-marked xs) refl
    extras ih _ e = rw (e, ih) refl

abbrev nonempty : List Position → Bool
nonempty [] = false
nonempty (p ∷ ps) = true

has_ddl : (xs : List (Statement × Position)) → has_type is_ddl xs ≡ nonempty (ddl_positions xs)
unfolding has_type ddl_positions
has_ddl [] = refl
has_ddl ((s, at) ∷ xs) = typed (has_ddl xs) s.statement_type refl
  where
    typed :
        has_type is_ddl xs ≡ nonempty (ddl_positions xs)
        → (t : StatementType) → s.statement_type ≡ t
        → has_type is_ddl ((s, at) ∷ xs) ≡ nonempty (ddl_positions ((s, at) ∷ xs))
    typed ih ddl e = rw e refl
    typed ih _ e = rw (e, ih) refl

has_dml : (xs : List (Statement × Position)) → has_type is_dml xs ≡ nonempty (dml_positions xs)
unfolding has_type dml_positions
has_dml [] = refl
has_dml ((s, at) ∷ xs) = typed (has_dml xs) s.statement_type refl
  where
    typed :
        has_type is_dml xs ≡ nonempty (dml_positions xs)
        → (t : StatementType) → s.statement_type ≡ t
        → has_type is_dml ((s, at) ∷ xs) ≡ nonempty (dml_positions ((s, at) ∷ xs))
    typed ih dml e = rw e refl
    typed ih _ e = rw (e, ih) refl

mixed_at-place :
    (i : ℕ) (positions : List Position)
    → places (mixed_at (get_elem? positions i)) ≡ somes (position_of i positions)
unfolding mixed_at position_of
mixed_at-place i [] = refl
mixed_at-place zero (p ∷ positions) = refl
mixed_at-place (suc i) (p ∷ positions) = mixed_at-place i positions

module _ (input : MultiCheckInput) where
  within-inner :
      (b : TxnBlock) → inner (suc b.first) b.last input.stmts input.positions ≡ within input b
  within-inner b =
      inner-between b.first b.last 0 (suc b.first) b.last input.stmts input.positions (omega arith)
        (omega arith)

  ddls_in_blocks-places :
      (blocks : List TxnBlock)
      → places (ddls_in_blocks input blocks) ≡ somes (all_of (extra_changes input) blocks)
  unfolding ddls_in_blocks
  ddls_in_blocks-places [] = refl
  ddls_in_blocks-places (b ∷ blocks) =
      let here = extra_ddls false (within input b) in
      rw (within-inner b) (
        map-append _ here (ddls_in_blocks input blocks)
        ∙ rw (extra_ddls-places (within input b), ddls_in_blocks-places blocks)
            (sym (map-append some (extra_changes input b) (all_of (extra_changes input) blocks))))

  mixed_in_blocks-places :
      (blocks : List TxnBlock)
      → places (mixed_in_blocks input blocks) ≡ somes (all_of (mixed_start input) blocks)
  unfolding mixed_in_blocks
  mixed_in_blocks-places [] = refl
  mixed_in_blocks-places (b ∷ blocks) =
      rw (within-inner b, has_ddl (within input b), has_dml (within input b))
        (joined (mixed_in_blocks-places blocks) (ddl_positions (within input b))
          (dml_positions (within input b)))
    where
      joined :
          places (mixed_in_blocks input blocks) ≡ somes (all_of (mixed_start input) blocks)
          → (ds ms : List Position)
          → places (
              if not (nonempty ds) || not (nonempty ms)
              then mixed_in_blocks input blocks
              else mixed_at (get_elem? input.positions b.first) ++ mixed_in_blocks input blocks)
            ≡ somes (
                where_both ds ms (position_of b.first input.positions)
                ++ all_of (mixed_start input) blocks)
      joined ih [] ms = ih
      joined ih (d ∷ ds) [] = ih
      joined ih (d ∷ ds) (m ∷ ms) =
          map-append _ (mixed_at (get_elem? input.positions b.first)) (mixed_in_blocks input blocks)
          ∙ rw (mixed_at-place b.first input.positions, ih)
              (sym (
                map-append some (position_of b.first input.positions)
                  (all_of (mixed_start input) blocks)))

-- The rule about several schema changes gives, for each explicit block, one finding at each schema change
-- beyond the block's first, and the rule about mixing gives one at the block's start where the block
-- has both a schema change and a data change, and nothing else. The blocks are those of the
-- description without a stack, and the statements of a block are those between its ends.
pub txn_findings :
    (input : MultiCheckInput)
    → let blocks = spans (length input.stmts) 0 (brackets input.stmts) in
      (places (check_multiple_ddl input) ≡ somes (all_of (extra_changes input) blocks))
      × (places (check_mixed input) ≡ somes (all_of (mixed_start input) blocks))
unfolding check_multiple_ddl check_mixed
txn_findings input =
    rw (explicit_txn_blocks-spans input.stmts)
      (ddls_in_blocks-places input _, mixed_in_blocks-places input _)
