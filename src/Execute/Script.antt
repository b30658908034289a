-- ===== src/Execute/Script.antt =====
-- The conversation that execute.go holds with the driver.
use sql_ai_tools.Prelude.{
  ℕ, ◌≡◌, refl, sym, ap, ◌∙◌, Bool, true, false, List, [], ◌∷◌, ◌++◌, Bytes, if◌then◌else◌,
  append-nil, append_assoc,
}
use sql_ai_tools.Prelude.Int.{ℤ}
use sql_ai_tools.Safety.Mode.{Mode, read_only, safe_write, full_access, unknown}
use sql_ai_tools.Execute.{
  Call, set_timeout, set_safe_updates, query, close_rows, commit, Driver, Answer, Manager,
  ExecuteError, scan_failed, read_failed, commit_failed, Outcome, failed, returned, Scanned,
  scanned, scan_error, scan, did, attempt, result_of, finish, run_query, guard_writes, in_tx,
}

-- The guards of the mode, beyond the access of its transaction.
abbrev pub guards : Mode → List Call
guards safe_write = set_safe_updates ∷ []
guards _ = []

-- What a transaction runs when nothing fails.
abbrev pub script : ℕ → Mode → Bytes → List Call
script timeout mode sql = set_timeout timeout ∷ guards mode ++ query sql ∷ close_rows ∷ commit ∷ []

abbrev pub is_returned : {R : Type 0} → Outcome R → Bool
is_returned (returned r) = true
is_returned (failed e) = false

module _ {R : Type 0} where
  -- The calls are the first ones of the script, and all of them where the code returns a result.
  pub record Runs (calls : List Call) (m : Manager) (r : Manager × Outcome R) : Type 0 where
    pub taken : List Call
    pub left : List Call
    pub whole : taken ++ left ≡ calls
    pub made : r.0.calls ≡ m.calls ++ taken
    pub all : is_returned r.1 ≡ true → left ≡ []
    pub still : r.0.connected ≡ m.connected

  did-Runs :
      (c : Call) (m : Manager) (calls : List Call) (r : Manager × Outcome R)
      → Runs calls (did c m) r
      → Runs (c ∷ calls) m r
  unfolding did
  did-Runs c m calls r h = record {
    taken = c ∷ h.taken;
    left = h.left;
    whole = ap (λ (xs : List Call). c ∷ xs) h.whole;
    made = h.made ∙ append_assoc m.calls (c ∷ []) h.taken;
    all = h.all;
    still = h.still;
  }

  -- An error before any of the calls.
  stop-Runs : (calls : List Call) (m : Manager) (e : ExecuteError) → Runs calls m (m, failed e)
  stop-Runs calls m e = record {
    taken = [];
    left = calls;
    whole = refl;
    made = sym (append-nil m.calls);
    all = λ k. cc;
    still = refl;
  }

  if-Runs :
      (b : Bool) (calls : List Call) (m : Manager) (x y : Manager × Outcome R)
      → Runs calls m x
      → Runs calls m y
      → Runs calls m (if b then x else y)
  if-Runs true calls m x y hx hy = hx
  if-Runs false calls m x y hx hy = hy

  attempt-Runs :
      (d : Driver R) (c : Call) (e : ExecuteError) (next : Manager → Manager × Outcome R)
      (m : Manager) (calls : List Call)
      → ((t : Manager) → t.timeout ≡ m.timeout → Runs calls t (next t))
      → Runs (c ∷ calls) m (attempt d c e next m)
  unfolding attempt
  attempt-Runs d c e next m calls h = did-Runs c m calls _ (
      if-Runs (d.succeeds m.calls c) calls (did c m) (next (did c m)) (did c m, failed e)
        (h (did c m) refl) (stop-Runs calls (did c m) e))

  finish-Runs :
      (d : Driver R) (a : Answer R) (s : Scanned R) (m : Manager)
      → Runs (close_rows ∷ commit ∷ []) m (finish d a s m)
  unfolding finish
  finish-Runs d a scan_error m =
      did-Runs close_rows m (commit ∷ []) _ (stop-Runs (commit ∷ []) (did close_rows m) scan_failed)
  finish-Runs d a (scanned rows truncated) m = did-Runs close_rows m (commit ∷ []) _ (
      if-Runs a.tail_error (commit ∷ []) (did close_rows m) (did close_rows m, failed read_failed) _
        (stop-Runs (commit ∷ []) (did close_rows m) read_failed)
        (attempt-Runs d commit commit_failed (λ t. (t, returned (result_of d a rows truncated)))
          (did close_rows m) []
          (λ t h. record {
            taken = [];
            left = [];
            whole = refl;
            made = sym (append-nil t.calls);
            all = λ k. refl;
            still = refl;
          })))

  run_query-Runs :
      (d : Driver R) (sql : Bytes) (max_rows : ℤ) (m : Manager)
      → Runs (query sql ∷ close_rows ∷ commit ∷ []) m (run_query d sql max_rows m)
  unfolding run_query
  run_query-Runs d sql max_rows m =
      let a = d.answer m.calls sql in
      attempt-Runs d (query sql) _ _ m (close_rows ∷ commit ∷ [])
        (λ t e. finish-Runs d a (scan max_rows a.rows []) t)

  guard_writes-Runs :
      (d : Driver R) (mode : Mode) (next : Manager → Manager × Outcome R) (m : Manager)
      (calls : List Call)
      → ((t : Manager) → Runs calls t (next t))
      → Runs (guards mode ++ calls) m (guard_writes d mode next m)
  unfolding guard_writes
  guard_writes-Runs d safe_write next m calls h =
      attempt-Runs d set_safe_updates _ next m calls (λ t e. h t)
  guard_writes-Runs d read_only next m calls h = h m
  guard_writes-Runs d full_access next m calls h = h m
  guard_writes-Runs d (unknown s) next m calls h = h m

  pub in_tx-Runs :
      (d : Driver R) (mode : Mode) (sql : Bytes) (max_rows : ℤ) (m : Manager)
      → Runs (script m.timeout mode sql) m (in_tx d mode sql max_rows m)
  unfolding in_tx
  in_tx-Runs d mode sql max_rows m = attempt-Runs d (set_timeout m.timeout) _ _ m _ (λ t e.
      guard_writes-Runs d mode (run_query d sql max_rows) t _
        (λ u. run_query-Runs d sql max_rows u))
