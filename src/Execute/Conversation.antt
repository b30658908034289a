-- ===== src/Execute/Conversation.antt =====
-- What execute.go says to the driver from the first call to the last.
use sql_ai_tools.Prelude.{
  String, ℕ, ◌≡◌, refl, sym, ap, ◌∙◌, Bool, true, false, List, [], ◌∷◌, ◌++◌, Option, none, some,
  Bytes, if◌then◌else◌, append-nil, append_assoc, ◌⊎◌, inl, inr,
}
use sql_ai_tools.Prelude.Int.{ℤ}
use sql_ai_tools.Safety.Mode.{Mode, read_only, safe_write, full_access, unknown}
use sql_ai_tools.Execute.{
  Access, access_read_only, access_default, Call, dial, begin_tx, rollback, close_conn, Driver,
  Manager, ExecuteError, connect_failed, unknown_mode, begin_failed, Outcome, failed, returned,
  tx_options_for_mode, did, attempt, in_tx, rolled_back, run_with, run_execute, recover, execute,
}
use sql_ai_tools.Execute.Script.{script, is_returned, Runs, in_tx-Runs}

-- The transaction of a mode that is declared.
pub data RunsIn : Mode → Access → Type 0 where
  reads : RunsIn read_only access_read_only
  writes : RunsIn safe_write access_default
  changes : RunsIn full_access access_default

tx_options-RunsIn :
    (mode : Mode) (access : Access) → tx_options_for_mode mode ≡ some access → RunsIn mode access
unfolding tx_options_for_mode
tx_options-RunsIn read_only access_read_only e = reads
tx_options-RunsIn read_only access_default e = cc
tx_options-RunsIn safe_write access_read_only e = cc
tx_options-RunsIn safe_write access_default e = writes
tx_options-RunsIn full_access access_read_only e = cc
tx_options-RunsIn full_access access_default e = changes
tx_options-RunsIn (unknown s) access e = cc

pub RunsIn-tx_options :
    {mode : Mode} {access : Access} → RunsIn mode access → tx_options_for_mode mode ≡ some access
unfolding tx_options_for_mode
RunsIn-tx_options reads = refl
RunsIn-tx_options writes = refl
RunsIn-tx_options changes = refl

undeclared : (mode : Mode) → tx_options_for_mode mode ≡ none → (s : String) × (mode ≡ unknown s)
unfolding tx_options_for_mode
undeclared (unknown s) e = (s, refl)
undeclared _ e = cc

-- The calls of one statement on a connection that is open; the flag says whether a result comes back.
pub data Conversation (timeout : ℕ) (mode : Mode) (sql : Bytes) : List Call → Bool → Type 0 where
  refused : (s : String) → mode ≡ unknown s → Conversation timeout mode sql (close_conn ∷ []) false
  not_begun :
      (access : Access)
      → RunsIn mode access
      → Conversation timeout mode sql (begin_tx access ∷ close_conn ∷ []) false
  stopped :
      (access : Access) (taken left : List Call)
      → RunsIn mode access
      → taken ++ left ≡ script timeout mode sql
      → Conversation timeout mode sql (begin_tx access ∷ taken ++ rollback ∷ close_conn ∷ []) false
  completed :
      (access : Access)
      → RunsIn mode access
      → Conversation timeout mode sql
          (begin_tx access ∷ script timeout mode sql ++ rollback ∷ [])
          true

-- The calls that make a connection where there is none.
abbrev pub opening_for : Bool → List Call
opening_for true = []
opening_for false = dial ∷ []

module _ {R : Type 0} where
  -- The call `Execute` makes the calls of a conversation, and keeps the connection just for a result.
  record Talks (mode : Mode) (sql : Bytes) (m : Manager) (r : Manager × Outcome R) : Type 0 where
    calls : List Call
    made : r.0.calls ≡ m.calls ++ calls
    talk : Conversation m.timeout mode sql calls (is_returned r.1)
    kept : r.0.connected ≡ is_returned r.1

  module _ (mode : Mode) (sql : Bytes) (m : Manager) where
    stop-Talks :
        (calls : List Call) (t : Manager) (e : ExecuteError)
        → t.calls ≡ m.calls ++ calls
        → Conversation m.timeout mode sql (calls ++ close_conn ∷ []) false
        → Talks mode sql m (recover (t, failed e))
    unfolding recover did
    stop-Talks calls t e made talk = record {
      calls = calls ++ close_conn ∷ [];
      made = rw (made, append_assoc m.calls calls (close_conn ∷ [])) refl;
      talk = talk;
      kept = refl;
    }

    ran-Talks :
        (access : Access) (t : Manager) (o : Outcome R)
        → RunsIn mode access
        → m.connected ≡ true
        → Runs (script m.timeout mode sql) (did (begin_tx access) m) (t, o)
        → Talks mode sql m (recover (rolled_back (t, o)))
    unfolding recover rolled_back did
    ran-Talks access t (failed e) at on h = record {
      calls = begin_tx access ∷ h.taken ++ rollback ∷ close_conn ∷ [];
      made = simp (h.made, append_assoc) refl;
      talk = stopped access h.taken h.left at h.whole;
      kept = refl;
    }
    ran-Talks access t (returned x) at on h =
        let done : h.taken ≡ script m.timeout mode sql =
          rw (← h.whole, h.all refl) (sym (append-nil h.taken)) in
        record {
          calls = begin_tx access ∷ script m.timeout mode sql ++ rollback ∷ [];
          made = simp (h.made, done, append_assoc) refl;
          talk = completed access at;
          kept = h.still ∙ on;
        }

    run_with-Talks :
        (d : Driver R) (max_rows : ℤ) (o : Option Access)
        → tx_options_for_mode mode ≡ o
        → m.connected ≡ true
        → Talks mode sql m (recover (run_with d mode sql max_rows o m))
    unfolding run_with attempt
    run_with-Talks d max_rows none at on =
        stop-Talks [] m unknown_mode (sym (append-nil m.calls))
          (let (s, e) = undeclared mode at in refused s e)
    run_with-Talks d max_rows (some access) at on = begun (d.succeeds m.calls (begin_tx access))
      where
        begun :
            (b : Bool)
            → Talks mode sql m (
                recover (
                  if b
                  then rolled_back (in_tx d mode sql max_rows (did (begin_tx access) m))
                  else (did (begin_tx access) m, failed begin_failed)))
        begun true =
            let t = did (begin_tx access) m in
            let r = in_tx d mode sql max_rows t in
            ran-Talks access r.0 r.1 (tx_options-RunsIn mode access at) on
              (in_tx-Runs d mode sql max_rows t)
        begun false =
            stop-Talks (begin_tx access ∷ []) (did (begin_tx access) m) begin_failed refl
              (not_begun access (tx_options-RunsIn mode access at))

  -- With a connection that is open.
  open-Talks :
      (d : Driver R) (mode : Mode) (sql : Bytes) (max_rows : ℤ) (m : Manager)
      → m.connected ≡ true
      → Talks mode sql m (recover (run_execute d mode sql max_rows m))
  unfolding run_execute
  open-Talks d mode sql max_rows m on =
      run_with-Talks mode sql m d max_rows (tx_options_for_mode mode) refl on

  -- The conversation behind a `dial` that is made where there is no connection.
  pub record Talked (mode : Mode) (sql : Bytes) (m : Manager) (r : Manager × Outcome R)
      : Type 0 where
    pub opening : List Call
    pub calls : List Call
    pub made : r.0.calls ≡ m.calls ++ opening ++ calls
    pub opened : opening ≡ opening_for m.connected
    pub talk :
        ((calls ≡ []) × (r.1 ≡ failed connect_failed) × (m.connected ≡ false))
        ⊎ Conversation m.timeout mode sql calls (is_returned r.1)
    pub kept : r.0.connected ≡ is_returned r.1

  pub execute-Talked :
      (d : Driver R) (mode : Mode) (sql : Bytes) (max_rows : ℤ) (m : Manager)
      → Talked mode sql m (execute d mode sql max_rows m)
  unfolding execute
  execute-Talked d mode sql max_rows m = dialled m.connected refl (d.succeeds m.calls dial)
    where
      up : Manager
      up = record (did dial m) { connected = true }

      dialled :
          (c : Bool)
          → m.connected ≡ c
          → (b : Bool)
          → Talked mode sql m (
              if c
              then recover (run_execute d mode sql max_rows m)
              else if b
              then recover (run_execute d mode sql max_rows up)
              else (did dial m, failed connect_failed))
      dialled true on b =
          let h = open-Talks d mode sql max_rows m on in
          record {
            opening = [];
            calls = h.calls;
            made = h.made ∙ sym (ap (λ (xs : List Call). xs ++ h.calls) (append-nil m.calls));
            opened = sym (ap opening_for on);
            talk = inr h.talk;
            kept = h.kept;
          }
      dialled false off true =
          let h = open-Talks d mode sql max_rows up refl in
          record {
            opening = dial ∷ [];
            calls = h.calls;
            made = h.made;
            opened = sym (ap opening_for off);
            talk = inr h.talk;
            kept = h.kept;
          }
      dialled false off false = record {
        opening = dial ∷ [];
        calls = [];
        made = sym (append-nil (m.calls ++ dial ∷ []));
        opened = sym (ap opening_for off);
        talk = inl (refl, refl, off);
        kept = off;
      }
