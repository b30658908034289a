-- ===== src/Risk/Blocks.antt =====
-- The stack of `explicitTxnBlocks` against a description without one.
use sql_ai_tools.Prelude.{
  ℕ, zero, suc, ◌<◌, ◌≡◌, refl, sym, ap, ◌∙◌, List, [], ◌∷◌, ◌++◌, arith, length, length-append,
  append-nil, append_assoc,
}
use sql_ai_tools.Risk.Tree.{Statement}
use sql_ai_tools.Risk.Txn.{
  TxnBlock, set_end, Bracket, opens, closes, neither, scan_blocks, pop_block, scan_step, brackets,
  explicit_txn_blocks,
}

-- Where the block that is `depth` blocks further out ends, reading on from index `i`: at the COMMIT or
-- ROLLBACK that closes it, or at `n`, the number of statements.
abbrev pub closing : ℕ → ℕ → ℕ → List Bracket → ℕ
closing n depth i [] = n
closing n depth i (opens ∷ bs) = closing n (suc depth) (suc i) bs
closing n zero i (closes ∷ bs) = i
closing n (suc depth) i (closes ∷ bs) = closing n depth (suc i) bs
closing n depth i (neither ∷ bs) = closing n depth (suc i) bs

-- One block for each BEGIN, up to its own COMMIT or ROLLBACK.
abbrev pub spans : ℕ → ℕ → List Bracket → List TxnBlock
spans n i [] = []
spans n i (opens ∷ bs) = record { first = i; last = closing n 0 (suc i) bs } ∷ spans n (suc i) bs
spans n i (closes ∷ bs) = spans n (suc i) bs
spans n i (neither ∷ bs) = spans n (suc i) bs

-- The ends of the open blocks, written in.
fill_open : ℕ → ℕ → List Bracket → ℕ → List ℕ → List TxnBlock → List TxnBlock
fill_open n i bs depth [] blocks = blocks
fill_open n i bs depth (k ∷ open_stack) blocks =
    set_end k (closing n depth i bs) (fill_open n i bs (suc depth) open_stack blocks)

-- The indexes on the stack fall, from below `m`.
abbrev Falls : ℕ → List ℕ → Type 0
Falls m [] = Unit
Falls m (k ∷ ks) = (k < m) × Falls k ks

-- The blocks on the stack have no end yet.
abbrev Open : ℕ → List ℕ → List TxnBlock → Type 0
Open n [] blocks = Unit
Open n (k ∷ ks) blocks = (set_end k n blocks ≡ blocks) × Open n ks blocks

Falls-weaken : (ks : List ℕ) (m m' : ℕ) → m < suc m' → Falls m ks → Falls m' ks
Falls-weaken [] m m' h f = tt
Falls-weaken (k ∷ ks) m m' h f = (omega (arith, f.0), f.1)

length-set_end : (k i : ℕ) (bs : List TxnBlock) → length (set_end k i bs) ≡ length bs
unfolding set_end
length-set_end k i [] = refl
length-set_end zero i (b ∷ bs) = refl
length-set_end (suc k) i (b ∷ bs) = ap suc (length-set_end k i bs)

set_end_comm :
    (k l i j : ℕ) (bs : List TxnBlock)
    → l < k
    → set_end k i (set_end l j bs) ≡ set_end l j (set_end k i bs)
unfolding set_end
set_end_comm k l i j [] h = refl
set_end_comm zero l i j (b ∷ bs) h = absurd (omega (arith, h))
set_end_comm (suc k) zero i j (b ∷ bs) h = refl
set_end_comm (suc k) (suc l) i j (b ∷ bs) h =
    ap (λ t. b ∷ t) (set_end_comm k l i j bs (omega arith))

set_end_twice : (k i j : ℕ) (bs : List TxnBlock) → set_end k i (set_end k j bs) ≡ set_end k i bs
unfolding set_end
set_end_twice k i j [] = refl
set_end_twice zero i j (b ∷ bs) = refl
set_end_twice (suc k) i j (b ∷ bs) = ap (λ t. b ∷ t) (set_end_twice k i j bs)

set_end-append :
    (k i : ℕ) (bs cs : List TxnBlock)
    → k < length bs
    → set_end k i (bs ++ cs) ≡ set_end k i bs ++ cs
unfolding set_end
set_end-append k i [] cs h = absurd (omega (arith, h))
set_end-append zero i (b ∷ bs) cs h = refl
set_end-append (suc k) i (b ∷ bs) cs h = ap (λ t. b ∷ t) (set_end-append k i bs cs (omega arith))

set_end-last :
    (k i : ℕ) (bs : List TxnBlock) (b : TxnBlock)
    → k ≡ length bs
    → set_end k i (bs ++ (b ∷ [])) ≡ bs ++ (record b { last = i } ∷ [])
unfolding set_end
set_end-last zero i [] b h = refl
set_end-last (suc k) i [] b h = absurd (omega (arith, h))
set_end-last zero i (c ∷ bs) b h = absurd (omega (arith, h))
set_end-last (suc k) i (c ∷ bs) b h = ap (λ t. c ∷ t) (set_end-last k i bs b (omega arith))

Open-append :
    (n : ℕ) (ks : List ℕ) (bs cs : List TxnBlock)
    → Falls (length bs) ks
    → Open n ks bs
    → Open n ks (bs ++ cs)
Open-append n [] bs cs f o = tt
Open-append n (k ∷ ks) bs cs f o = (
  set_end-append k n bs cs f.0 ∙ ap (λ t. t ++ cs) o.0,
  Open-append n ks bs cs (Falls-weaken ks k (length bs) (omega (arith, f.0)) f.1) o.1,
)

Open-set_end :
    (n k i : ℕ) (ks : List ℕ) (bs : List TxnBlock)
    → Falls k ks
    → Open n ks bs
    → Open n ks (set_end k i bs)
Open-set_end n k i [] bs f o = tt
Open-set_end n k i (l ∷ ks) bs f o = (
  sym (set_end_comm k l i n bs f.0) ∙ ap (set_end k i) o.0,
  Open-set_end n k i ks bs (Falls-weaken ks l k (omega (arith, f.0)) f.1) o.1,
)

length-fill_open :
    (n i : ℕ) (bs : List Bracket) (d : ℕ) (ks : List ℕ) (blocks : List TxnBlock)
    → length (fill_open n i bs d ks blocks) ≡ length blocks
unfolding fill_open
length-fill_open n i bs d [] blocks = refl
length-fill_open n i bs d (k ∷ ks) blocks =
    length-set_end k _ _ ∙ length-fill_open n i bs (suc d) ks blocks

fill_open-append :
    (n i : ℕ) (bs : List Bracket) (d : ℕ) (ks : List ℕ) (blocks cs : List TxnBlock)
    → Falls (length blocks) ks
    → fill_open n i bs d ks (blocks ++ cs) ≡ fill_open n i bs d ks blocks ++ cs
unfolding fill_open
fill_open-append n i bs d [] blocks cs f = refl
fill_open-append n i bs d (k ∷ ks) blocks cs f =
    ap (set_end k (closing n d i bs)) (
      fill_open-append n i bs (suc d) ks blocks cs
        (Falls-weaken ks k (length blocks) (omega (arith, f.0)) f.1))
    ∙ set_end-append k _ (fill_open n i bs (suc d) ks blocks) cs
        (omega (arith, f.0, length-fill_open n i bs (suc d) ks blocks))

fill_open-set_end :
    (n i : ℕ) (bs : List Bracket) (d : ℕ) (ks : List ℕ) (k j : ℕ) (blocks : List TxnBlock)
    → Falls k ks
    → fill_open n i bs d ks (set_end k j blocks) ≡ set_end k j (fill_open n i bs d ks blocks)
unfolding fill_open
fill_open-set_end n i bs d [] k j blocks f = refl
fill_open-set_end n i bs d (l ∷ ks) k j blocks f =
    ap (set_end l (closing n d i bs)) (
      fill_open-set_end n i bs (suc d) ks k j blocks (Falls-weaken ks l k (omega (arith, f.0)) f.1))
    ∙ sym (set_end_comm k l j _ _ f.0)

fill_open-done :
    (n i : ℕ) (d : ℕ) (ks : List ℕ) (blocks : List TxnBlock)
    → Open n ks blocks
    → fill_open n i [] d ks blocks ≡ blocks
unfolding fill_open
fill_open-done n i d [] blocks o = refl
fill_open-done n i d (k ∷ ks) blocks o =
    ap (set_end k n) (fill_open-done n i (suc d) ks blocks o.1) ∙ o.0

-- An opening bracket puts the open blocks one further out; a closing one brings them one nearer.
fill_open-opens :
    (n i : ℕ) (bs : List Bracket) (d : ℕ) (ks : List ℕ) (blocks : List TxnBlock)
    → fill_open n i (opens ∷ bs) d ks blocks ≡ fill_open n (suc i) bs (suc d) ks blocks
unfolding fill_open
fill_open-opens n i bs d [] blocks = refl
fill_open-opens n i bs d (k ∷ ks) blocks =
    ap (set_end k _) (fill_open-opens n i bs (suc d) ks blocks)

fill_open-closes :
    (n i : ℕ) (bs : List Bracket) (d : ℕ) (ks : List ℕ) (blocks : List TxnBlock)
    → fill_open n i (closes ∷ bs) (suc d) ks blocks ≡ fill_open n (suc i) bs d ks blocks
unfolding fill_open
fill_open-closes n i bs d [] blocks = refl
fill_open-closes n i bs d (k ∷ ks) blocks =
    ap (set_end k _) (fill_open-closes n i bs (suc d) ks blocks)

fill_open-neither :
    (n i : ℕ) (bs : List Bracket) (d : ℕ) (ks : List ℕ) (blocks : List TxnBlock)
    → fill_open n i (neither ∷ bs) d ks blocks ≡ fill_open n (suc i) bs d ks blocks
unfolding fill_open
fill_open-neither n i bs d [] blocks = refl
fill_open-neither n i bs d (k ∷ ks) blocks =
    ap (set_end k _) (fill_open-neither n i bs (suc d) ks blocks)

fill_open-none :
    (n i : ℕ) (bs : List Bracket) (d : ℕ) (blocks : List TxnBlock)
    → fill_open n i bs d [] blocks ≡ blocks
unfolding fill_open
fill_open-none n i bs d blocks = refl

fill_open-pop :
    (n i : ℕ) (bs : List Bracket) (k : ℕ) (ks : List ℕ) (blocks : List TxnBlock)
    → Falls k ks
    → fill_open n (suc i) bs 0 ks (set_end k i blocks)
      ≡ fill_open n i (closes ∷ bs) 0 (k ∷ ks) blocks
unfolding fill_open
fill_open-pop n i bs k ks blocks f =
    fill_open-set_end n (suc i) bs 0 ks k i blocks f
    ∙ ap (set_end k i) (sym (fill_open-closes n i bs 0 ks blocks))

fill_open-push :
    (n i : ℕ) (bs : List Bracket) (ks : List ℕ) (blocks : List TxnBlock)
    → Falls (length blocks) ks
    → fill_open n
        (suc i)
        bs
        0
        (length blocks ∷ ks)
        (blocks ++ (record { first = i; last = n } ∷ []))
      ≡ fill_open n i (opens ∷ bs) 0 ks blocks
        ++ (record { first = i; last = closing n 0 (suc i) bs } ∷ [])
unfolding fill_open
fill_open-push n i bs ks blocks f =
    ap (set_end (length blocks) (closing n 0 (suc i) bs))
      (fill_open-append n (suc i) bs 1 ks blocks (record { first = i; last = n } ∷ []) f)
    ∙ set_end-last (length blocks) _ (fill_open n (suc i) bs 1 ks blocks) _
        (sym (length-fill_open n (suc i) bs 1 ks blocks))
    ∙ ap (λ t. t ++ (record { first = i; last = closing n 0 (suc i) bs } ∷ []))
        (sym (fill_open-opens n i bs 0 ks blocks))

scan_blocks-spans :
    (n i : ℕ) (bs : List Bracket) (ks : List ℕ) (blocks : List TxnBlock)
    → Falls (length blocks) ks
    → Open n ks blocks
    → scan_blocks n i bs ks blocks ≡ fill_open n i bs 0 ks blocks ++ spans n i bs
unfolding scan_blocks scan_step pop_block
scan_blocks-spans n i [] ks blocks f o = sym (fill_open-done n i 0 ks blocks o) ∙ sym (append-nil _)
scan_blocks-spans n i (neither ∷ bs) ks blocks f o =
    scan_blocks-spans n (suc i) bs ks blocks f o
    ∙ ap (λ t. t ++ spans n (suc i) bs) (sym (fill_open-neither n i bs 0 ks blocks))
scan_blocks-spans n i (closes ∷ bs) [] blocks f o =
    scan_blocks-spans n (suc i) bs [] blocks f o
    ∙ ap (λ t. t ++ spans n (suc i) bs)
        (fill_open-none n (suc i) bs 0 blocks ∙ sym (fill_open-none n i (closes ∷ bs) 0 blocks))
scan_blocks-spans n i (closes ∷ bs) (k ∷ ks) blocks f o =
    scan_blocks-spans n (suc i) bs ks (set_end k i blocks)
      (Falls-weaken ks k _ (omega (arith, f.0, length-set_end k i blocks)) f.1)
      (Open-set_end n k i ks blocks f.1 o.1)
    ∙ ap (λ t. t ++ spans n (suc i) bs) (fill_open-pop n i bs k ks blocks f.1)
scan_blocks-spans n i (opens ∷ bs) ks blocks f o =
    scan_blocks-spans n (suc i) bs (length blocks ∷ ks)
      (blocks ++ (record { first = i; last = n } ∷ []))
      (omega (arith, length-append blocks (record { first = i; last = n } ∷ [])), f)
      (set_end-last (length blocks) n blocks _ refl, Open-append n ks blocks _ f o)
    ∙ ap (λ t. t ++ spans n (suc i) bs) (fill_open-push n i bs ks blocks f)
    ∙ append_assoc (fill_open n i (opens ∷ bs) 0 ks blocks) _ _

-- The blocks are one for each BEGIN, in order: each ends at the COMMIT or ROLLBACK that balances its
-- BEGIN, or at the end of the statements where none does, and a COMMIT or ROLLBACK outside every block
-- closes nothing.
pub explicit_txn_blocks-spans :
    (stmts : List Statement) → explicit_txn_blocks stmts ≡ spans (length stmts) 0 (brackets stmts)
unfolding explicit_txn_blocks
explicit_txn_blocks-spans stmts =
    scan_blocks-spans (length stmts) 0 (brackets stmts) [] [] tt tt
    ∙ ap (λ t. t ++ spans (length stmts) 0 (brackets stmts))
        (fill_open-none (length stmts) 0 (brackets stmts) 0 [])
