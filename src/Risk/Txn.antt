-- ===== src/Risk/Txn.antt =====
-- internal/risk/rules.go: explicit transactions in a list of statements, and the rules about them.
use sql_ai_tools.Prelude.{
  ℕ, zero, suc, ◌-◌, Bool, true, false, not, ◌||◌, List, [], ◌∷◌, ◌++◌, Option, none, some, Bytes,
  codes, length, take, drop, get_elem?, if◌then◌else◌,
}
use sql_ai_tools.Position.{Position}
use sql_ai_tools.Risk.{high, medium, Finding, draft, MultiCheckInput, MultiRule}
use sql_ai_tools.Risk.Tree.{
  Ast, begin_transaction, commit_transaction, rollback_transaction, StatementType, ddl, dml,
  Statement,
}

-- `txnBlock`: the index of the BEGIN, and of the COMMIT or ROLLBACK.
pub record TxnBlock : Type 0 where
  pub first : ℕ
  pub last : ℕ

-- `blocks[k].End = i`.
unfoldable pub set_end : ℕ → ℕ → List TxnBlock → List TxnBlock
set_end k i [] = []
set_end zero i (b ∷ blocks) = record b { last = i } ∷ blocks
set_end (suc k) i (b ∷ blocks) = b ∷ set_end k i blocks

-- The cases of the switch: opens a block, closes one, or neither.
pub data Bracket : Type 0 where
  opens closes neither : Bracket

unfoldable pub bracket : Ast → Bracket
bracket begin_transaction = opens
bracket commit_transaction = closes
bracket rollback_transaction = closes
bracket _ = neither

-- A COMMIT or ROLLBACK at `i`: the blocks, and the indexes of those that are open, innermost first.
unfoldable pub pop_block : ℕ → List ℕ → List TxnBlock → List ℕ × List TxnBlock
unfolding set_end
pop_block i [] blocks = ([], blocks)
pop_block i (top ∷ open_stack) blocks = (open_stack, set_end top i blocks)

unfoldable pub scan_step : ℕ → ℕ → Bracket → List ℕ → List TxnBlock → List ℕ × List TxnBlock
unfolding pop_block
scan_step n i opens open_stack blocks =
    (length blocks ∷ open_stack, blocks ++ (record { first = i; last = n } ∷ []))
scan_step n i closes open_stack blocks = pop_block i open_stack blocks
scan_step n i neither open_stack blocks = (open_stack, blocks)

-- The loop over the statements, from index `i` on, of `n` statements in all.
unfoldable pub scan_blocks : ℕ → ℕ → List Bracket → List ℕ → List TxnBlock → List TxnBlock
unfolding scan_step
scan_blocks n i [] open_stack blocks = blocks
scan_blocks n i (b ∷ bs) open_stack blocks =
    let (stack, next) = scan_step n i b open_stack blocks in scan_blocks n (suc i) bs stack next

unfoldable pub brackets : List Statement → List Bracket
unfolding bracket
brackets [] = []
brackets (s ∷ stmts) = bracket s.ast ∷ brackets stmts

-- `explicitTxnBlocks`.
unfoldable pub explicit_txn_blocks : List Statement → List TxnBlock
unfolding scan_blocks brackets
explicit_txn_blocks stmts = scan_blocks (length stmts) 0 (brackets stmts) [] []

-- `input.Stmts[i]` and `input.Positions[i]` together, for the indexes from `start` on below `end`.
unfoldable pub inner : ℕ → ℕ → List Statement → List Position → List (Statement × Position)
inner start end stmts positions = take (end - start) (drop start (paired stmts positions))
  where
    paired : List Statement → List Position → List (Statement × Position)
    paired [] positions = []
    paired (s ∷ stmts) [] = []
    paired (s ∷ stmts) (p ∷ positions) = (s, p) ∷ paired stmts positions

abbrev pub is_ddl : StatementType → Bool
is_ddl ddl = true
is_ddl _ = false

abbrev pub is_dml : StatementType → Bool
is_dml dml = true
is_dml _ = false

abbrev pub extra_ddl : Bytes → Position → Finding
extra_ddl tag at =
    draft
      (codes "additional DDL ("
        ++ tag
        ++ codes
            ") in the same explicit transaction; CockroachDB runs each DDL as an online schema "
        ++ codes "change and may leave the schema partially applied if any one fails")
      at (codes "Run each DDL in its own transaction (one BEGIN..COMMIT per DDL)")

-- The inner loop, with `seenFirst`.
unfoldable pub extra_ddls : Bool → List (Statement × Position) → List Finding
extra_ddls seen_first [] = []
extra_ddls seen_first ((s, at) ∷ rest) =
    let skipped = extra_ddls seen_first rest in
    let marked = extra_ddls true rest in
    if not (is_ddl s.statement_type)
    then skipped
    else if not seen_first
    then marked
    else extra_ddl s.tag at ∷ marked

unfoldable pub ddls_in_blocks : MultiCheckInput → List TxnBlock → List Finding
unfolding inner extra_ddls
ddls_in_blocks input [] = []
ddls_in_blocks input (blk ∷ blocks) =
    extra_ddls false (inner (suc blk.first) blk.last input.stmts input.positions)
    ++ ddls_in_blocks input blocks

unfoldable pub check_multiple_ddl : MultiCheckInput → List Finding
unfolding ddls_in_blocks explicit_txn_blocks
check_multiple_ddl input = ddls_in_blocks input (explicit_txn_blocks input.stmts)

abbrev pub multiple_ddl_in_txn_rule : MultiRule
multiple_ddl_in_txn_rule = record {
  reason_code = codes "MULTIPLE_DDL_IN_TXN";
  severity = high;
  category = codes "transactional_safety";
  check = some check_multiple_ddl;
}

-- `hasDDL` and `hasDML` after the inner loop.
unfoldable pub has_type : (StatementType → Bool) → List (Statement × Position) → Bool
has_type test [] = false
has_type test ((s, at) ∷ rest) = test s.statement_type || has_type test rest

abbrev pub mixed_finding : Position → Finding
mixed_finding at =
    draft
      (codes
          "explicit transaction mixes DDL and DML; the asynchronous schema change can leave the DML "
        ++ codes "observing an inconsistent intermediate schema")
      at
      (codes
          "Split the transaction so DDL and DML run separately (one BEGIN..COMMIT per DDL, with DML "
        ++ codes "in its own transactions)")

-- The finding at `input.Positions[blk.Start]`; out of range Go panics, and here there is no finding.
unfoldable pub mixed_at : Option Position → List Finding
mixed_at none = []
mixed_at (some at) = mixed_finding at ∷ []

unfoldable pub mixed_in_blocks : MultiCheckInput → List TxnBlock → List Finding
unfolding inner has_type mixed_at
mixed_in_blocks input [] = []
mixed_in_blocks input (blk ∷ blocks) =
    let within = inner (suc blk.first) blk.last input.stmts input.positions in
    let rest = mixed_in_blocks input blocks in
    if not (has_type is_ddl within) || not (has_type is_dml within)
    then rest
    else mixed_at (get_elem? input.positions blk.first) ++ rest

unfoldable pub check_mixed : MultiCheckInput → List Finding
unfolding mixed_in_blocks explicit_txn_blocks
check_mixed input = mixed_in_blocks input (explicit_txn_blocks input.stmts)

abbrev pub ddl_and_dml_in_txn_rule : MultiRule
ddl_and_dml_in_txn_rule = record {
  reason_code = codes "DDL_AND_DML_IN_TXN";
  severity = medium;
  category = codes "transactional_safety";
  check = some check_mixed;
}
