-- ===== src/Safety/Limit/Injection.antt =====
-- What the LIMIT rewriter of limit.go changes, and when.
use sql_ai_tools.Prelude.{
  ℕ, zero, suc, Bytes, ◌≡◌, ◌⊎◌, inl, inr, refl, true, false, Option, none, some, List, [], ◌∷◌,
  ◌↔◌, arith, ◌||◌,
}
use sql_ai_tools.Prelude.Int.{ℤ, pos, negsuc}
use sql_ai_tools.Safety.Statement.{Statement, Limit, Node, select}
use sql_ai_tools.Safety.Allowlist.{ParseResult, parsed, failed}
use sql_ai_tools.Safety.Limit.{
  is_set, select_is_bounded, bounded_node, injected, printed, maybe_inject_limit_parsed, Rewritten,
  rewrite_with, parsed_limit, maybe_inject_limit,
}

-- The OFFSET expression, if there is one.
abbrev pub offset_of : Option Limit → Option ℕ
offset_of none = none
offset_of (some l) = l.offset

-- Neither a LIMIT nor LIMIT ALL; an OFFSET alone may stand there.
abbrev pub IsUnbounded : Option Limit → Type 0
IsUnbounded none = Unit
IsUnbounded (some l) = (l.count ≡ none) × (l.limit_all ≡ false)

IsUnbounded-iff : (limit : Option Limit) → (select_is_bounded limit ≡ false) ↔ IsUnbounded limit
unfolding select_is_bounded is_set
IsUnbounded-iff none = (λ h. tt, λ h. refl)
IsUnbounded-iff (some l) = (λ h. unset l.count refl h, λ h. rw (h.0, h.1) refl)
  where
    unset :
        (c : Option ℕ)
        → l.count ≡ c
        → (is_set l.count || l.limit_all) ≡ false
        → (l.count ≡ none) × (l.limit_all ≡ false)
    unset none e h = (e, ground (arith, e, h))
    unset (some n) e h = absurd (ground (arith, e, h))

-- What a statement must be for the cap `max_rows` to turn it into `t`.
pub record IsCapped (stmts : List Statement) (max_rows : ℤ) (t : Statement) : Type 0 where
  pub source : Statement
  pub limit : Option Limit
  pub cap : ℕ
  pub single : stmts ≡ source ∷ []
  pub positive : max_rows ≡ pos (suc cap)
  pub is_select : source.node ≡ select limit
  pub unbounded : IsUnbounded limit
  pub capped : t ≡ record source {
    node =
        select
          (some (record { count = some (suc cap); offset = offset_of limit; limit_all = false }));
  }

module _ (s : Statement) (n : ℕ) (t : Statement) where
  bounded_node_sound :
      (k : Node)
      → s.node ≡ k
      → bounded_node k s (suc n) ≡ some t
      → IsCapped (s ∷ []) (pos (suc n)) t
  unfolding bounded_node
  bounded_node_sound (select l) e h = record {
    source = s;
    limit = l;
    cap = n;
    single = refl;
    positive = refl;
    is_select = e;
    unbounded = (IsUnbounded-iff l).0 (ground arith);
    capped = ground arith;
  }
  bounded_node_sound _ e h = cc

  bounded_node_complete :
      (l : Option Limit)
      → select_is_bounded l ≡ false
      → t ≡ record s {
        node =
            select
              (some (record { count = some (suc n); offset = offset_of l; limit_all = false }));
      }
      → bounded_node (select l) s (suc n) ≡ some t
  unfolding bounded_node
  bounded_node_complete none u c = ground arith
  bounded_node_complete (some l) u c = ground arith

injected_single :
    (s : Statement) (n : ℕ) → injected (s ∷ []) (pos (suc n)) ≡ bounded_node s.node s (suc n)
unfolding injected
injected_single s n = refl

injected_complete :
    (stmts : List Statement) (max_rows : ℤ) (t : Statement)
    → IsCapped stmts max_rows t
    → injected stmts max_rows ≡ some t
injected_complete stmts max_rows t c =
    simp (c.single, c.positive, injected_single, c.is_select)
      (bounded_node_complete c.source c.cap t c.limit ((IsUnbounded-iff c.limit).1 c.unbounded)
        c.capped)

-- The rewriter changes a batch exactly when the cap is positive and the batch is one SELECT with
-- neither a LIMIT nor LIMIT ALL; it then sets the count to the cap, and keeps the OFFSET and all
-- else.
pub injected_iff :
    (stmts : List Statement) (max_rows : ℤ) (t : Statement)
    → (injected stmts max_rows ≡ some t) ↔ IsCapped stmts max_rows t
unfolding injected
injected_iff stmts max_rows t = (sound stmts max_rows, injected_complete stmts max_rows t)
  where
    sound :
        (stmts : List Statement) (max_rows : ℤ)
        → injected stmts max_rows ≡ some t
        → IsCapped stmts max_rows t
    sound stmts (negsuc n) h = cc
    sound stmts (pos zero) h = cc
    sound [] (pos (suc n)) h = cc
    sound (s ∷ u ∷ rest) (pos (suc n)) h = cc
    sound (s ∷ []) (pos (suc n)) h = bounded_node_sound s n t s.node refl h

-- A statement that has been capped is left alone by a second call, whatever its cap.
injected_once :
    (stmts : List Statement) (max_rows again : ℤ) (t : Statement)
    → injected stmts max_rows ≡ some t
    → injected (t ∷ []) again ≡ none
unfolding injected select_is_bounded
injected_once stmts max_rows (negsuc n) t h = refl
injected_once stmts max_rows (pos zero) t h = refl
injected_once stmts max_rows (pos (suc n)) t h =
    rw (((injected_iff stmts max_rows t).0 h).capped, injected) refl

module _ {E : Type 0} (parse : Bytes → ParseResult E) (as_string : Statement → Bytes) where
  -- The text is one that the cap changes, it is not, or it does not parse.
  abbrev pub Outcome : Bytes → ℤ → Rewritten E → Type 0
  Outcome sql max_rows r =
      ((stmts : List Statement) × (t : Statement) × ((parse sql ≡ parsed stmts)
          × IsCapped stmts max_rows t
          × (r ≡ record { sql = as_string t; injected = true; error = none })))
      ⊎ (((stmts : List Statement) (t : Statement)
            → parse sql ≡ parsed stmts
            → ¬ IsCapped stmts max_rows t)
          × (r ≡ record { sql = sql; injected = false; error = none }))
      ⊎ ((e : E) × ((parse sql ≡ failed e)
            × (r ≡ record { sql = sql; injected = false; error = some e })))

  never :
      {sql : Bytes} {stmts : List Statement} {n : ℕ}
      → parse sql ≡ parsed stmts
      → injected stmts (pos (suc n)) ≡ none
      → (other : List Statement) (t : Statement) → parse sql ≡ parsed other
      → ¬ IsCapped other (pos (suc n)) t
  never {stmts = stmts} {n = n} p i other t q c =
      let same : other ≡ stmts = ground (arith, p, q) in
      absurd (ground (arith, i, (injected_iff stmts (pos (suc n)) t).1 (rw (← same) c)))

  parsed_outcome :
      (sql : Bytes) (n : ℕ) (stmts : List Statement) (o : Option Statement)
      → parse sql ≡ parsed stmts
      → injected stmts (pos (suc n)) ≡ o
      → Outcome sql (pos (suc n)) (rewrite_with sql (printed as_string o))
  unfolding rewrite_with printed
  parsed_outcome sql n stmts none p i = inr (inl (λ other t q c. never p i other t q c, refl))
  parsed_outcome sql n stmts (some t) p i =
      inl (stmts, t, (p, (injected_iff stmts (pos (suc n)) t).0 i, refl))

  limit_outcome :
      (sql : Bytes) (n : ℕ) (r : ParseResult E)
      → parse sql ≡ r
      → Outcome sql (pos (suc n)) (parsed_limit as_string sql r (pos (suc n)))
  unfolding parsed_limit maybe_inject_limit_parsed
  limit_outcome sql n (failed x) p = inr (inr (x, (p, refl)))
  limit_outcome sql n (parsed stmts) p =
      parsed_outcome sql n stmts (injected stmts (pos (suc n))) p refl

  -- The text is rewritten exactly where it parses to a statement that the cap changes, and it is then
  -- the print of the changed statement. Otherwise it comes back as it was, with the parser's error
  -- where it does not parse and a cap is asked for.
  maybe_inject_limit-Outcome :
      (sql : Bytes) (max_rows : ℤ)
      → Outcome sql max_rows (maybe_inject_limit parse as_string sql max_rows)
  unfolding maybe_inject_limit
  maybe_inject_limit-Outcome sql (negsuc n) =
      inr (inl (λ stmts t q c. ground (arith, c.positive), refl))
  maybe_inject_limit-Outcome sql (pos zero) =
      inr (inl (λ stmts t q c. ground (arith, c.positive), refl))
  maybe_inject_limit-Outcome sql (pos (suc n)) = limit_outcome sql n (parse sql) refl
