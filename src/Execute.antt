-- ===== src/Execute.antt =====
-- internal/conn/execute.go: one statement run in a transaction, with the shape that the mode asks for.
-- The driver and the cluster behind it are an argument: what they answer to a call, by the calls
-- before it. `R` is a row as the driver returns it. The rollback is deferred, so it is called behind a
-- commit too, where the driver does nothing.
pub mod Scan
pub mod Script
pub mod Conversation
pub mod Arguments
pub mod Tool
pub mod Fits
pub mod Admitted
pub mod Timeout
use sql_ai_tools.Prelude.{
  ℕ, zero, suc, Bool, true, false, List, [], ◌∷◌, ◌++◌, length, Option, none, some, Bytes, leb,
  if◌then◌else◌,
}
use sql_ai_tools.Prelude.Int.{ℤ, pos, negsuc}
use sql_ai_tools.Safety.Mode.{Mode, read_only, safe_write, full_access, unknown}

-- `pgx.TxOptions`: `AccessMode: pgx.ReadOnly`, or the zero value.
pub data Access : Type 0 where
  access_read_only access_default : Access

-- The calls of the driver; `set_timeout` carries the milliseconds.
pub data Call : Type 0 where
  dial : Call
  begin_tx : Access → Call
  set_timeout : ℕ → Call
  set_safe_updates : Call
  query : Bytes → Call
  close_rows commit rollback close_conn : Call

-- `FieldDescription`, and `ColumnMeta`.
pub record Field : Type 0 where
  pub name : Bytes
  pub oid : ℕ

pub record ColumnMeta : Type 0 where
  pub name : Bytes
  pub type_name : Bytes

-- What a query returns: each step of `rows.Next` with what `rows.Values` gives, `none` for its error;
-- whether `rows.Err` reports an error after `Close`; and the command tag.
pub record Answer (R : Type 0) : Type 0 where
  pub fields : List Field
  pub rows : List (Option R)
  pub tail_error : Bool
  pub rows_affected : ℤ
  pub tag : Bytes

-- The calls made so far are the first argument, the first call first.
pub record Driver (R : Type 0) : Type 0 where
  pub succeeds : List Call → Call → Bool
  pub answer : List Call → Bytes → Answer R
  pub type_for_oid : ℕ → Option Bytes

-- `Manager`: whether it has a connection, its timeout in milliseconds, and the calls made.
pub record Manager : Type 0 where
  pub connected : Bool
  pub timeout : ℕ
  pub calls : List Call

pub data ExecuteError : Type 0 where
  connect_failed unknown_mode begin_failed timeout_failed safe_updates_failed : ExecuteError
  query_failed scan_failed read_failed commit_failed : ExecuteError

-- `ExecuteResult`; `limit_injected` is set by the caller.
pub record ExecuteResult (R : Type 0) : Type 0 where
  pub columns : List ColumnMeta
  pub rows : List R
  pub rows_returned : ℕ
  pub rows_affected : ℤ
  pub command_tag : Bytes
  pub limit_injected : Option ℤ
  pub truncated : Bool

pub data Outcome (R : Type 0) : Type 0 where
  failed : ExecuteError → Outcome R
  returned : ExecuteResult R → Outcome R

-- `txOptionsForMode`.
unfoldable pub tx_options_for_mode : Mode → Option Access
tx_options_for_mode read_only = some access_read_only
tx_options_for_mode safe_write = some access_default
tx_options_for_mode full_access = some access_default
tx_options_for_mode (unknown s) = none

-- `opts.MaxRows > 0 && len(out.Rows) >= opts.MaxRows`.
unfoldable pub at_cap : ℤ → ℕ → Bool
at_cap (pos (suc n)) got = leb (suc n) got
at_cap _ got = false

-- The rows that the loop scanned, with `Truncated`, or the error of `rows.Values`.
pub data Scanned (R : Type 0) : Type 0 where
  scanned : List R → Bool → Scanned R
  scan_error : Scanned R

unfoldable pub column_type : Option Bytes → Bytes
column_type none = []
column_type (some t) = t

-- A call whose result the code does not look at.
unfoldable pub did : Call → Manager → Manager
did c m = record m { calls = m.calls ++ c ∷ [] }

module _ {R : Type 0} where
  -- The loop over `rows.Next`.
  unfoldable pub scan : ℤ → List (Option R) → List R → Scanned R
  unfolding at_cap
  scan max_rows [] got = scanned got false
  scan max_rows (none ∷ rows) got =
      if at_cap max_rows (length got) then scanned got true else scan_error
  scan max_rows (some r ∷ rows) got =
      let rest = scan max_rows rows (got ++ r ∷ []) in
      if at_cap max_rows (length got) then scanned got true else rest

  -- `buildColumnMeta`.
  unfoldable pub build_column_meta : Driver R → List Field → List ColumnMeta
  unfolding column_type
  build_column_meta d [] = []
  build_column_meta d (f ∷ fields) =
      record { name = f.name; type_name = column_type (d.type_for_oid f.oid) }
      ∷ build_column_meta d fields

  -- A call that may fail, and what follows it where it succeeds.
  unfoldable pub attempt :
      Driver R
      → Call
      → ExecuteError
      → (Manager → Manager × Outcome R)
      → Manager
      → Manager × Outcome R
  unfolding did
  attempt d c e next m =
      let rest = next (did c m) in if d.succeeds m.calls c then rest else (did c m, failed e)

  unfoldable pub result_of : Driver R → Answer R → List R → Bool → ExecuteResult R
  unfolding build_column_meta
  result_of d a rows truncated = record {
    columns = build_column_meta d a.fields;
    rows = rows;
    rows_returned = length rows;
    rows_affected = a.rows_affected;
    command_tag = a.tag;
    limit_injected = none;
    truncated = truncated;
  }

  -- From `rows.Close` to the end; the deferred `rows.Close` does nothing more after it.
  unfoldable pub finish : Driver R → Answer R → Scanned R → Manager → Manager × Outcome R
  unfolding attempt result_of did
  finish d a scan_error m = (did close_rows m, failed scan_failed)
  finish d a (scanned rows truncated) m =
      if a.tail_error
      then (did close_rows m, failed read_failed)
      else attempt d commit commit_failed (λ t. (t, returned (result_of d a rows truncated)))
          (did close_rows m)

  unfoldable pub run_query : Driver R → Bytes → ℤ → Manager → Manager × Outcome R
  unfolding attempt finish scan
  run_query d sql max_rows m =
      let a = d.answer m.calls sql in
      attempt d (query sql) query_failed (finish d a (scan max_rows a.rows [])) m

  -- `SET LOCAL sql_safe_updates = on`, under safe_write alone.
  unfoldable pub guard_writes :
      Driver R → Mode → (Manager → Manager × Outcome R) → Manager → Manager × Outcome R
  unfolding attempt
  guard_writes d safe_write next m = attempt d set_safe_updates safe_updates_failed next m
  guard_writes d _ next m = next m

  -- What runs between `BeginTx` and the deferred `Rollback`.
  unfoldable pub in_tx : Driver R → Mode → Bytes → ℤ → Manager → Manager × Outcome R
  unfolding attempt guard_writes run_query
  in_tx d mode sql max_rows m =
      attempt d (set_timeout m.timeout) timeout_failed
        (guard_writes d mode (run_query d sql max_rows)) m

  unfoldable pub rolled_back : Manager × Outcome R → Manager × Outcome R
  unfolding did
  rolled_back (m, o) = (did rollback m, o)

  unfoldable pub run_with :
      Driver R → Mode → Bytes → ℤ → Option Access → Manager → Manager × Outcome R
  unfolding attempt in_tx rolled_back
  run_with d mode sql max_rows none m = (m, failed unknown_mode)
  run_with d mode sql max_rows (some access) m =
      attempt d (begin_tx access) begin_failed (λ t. rolled_back (in_tx d mode sql max_rows t)) m

  -- `runExecute`.
  unfoldable pub run_execute : Driver R → Mode → Bytes → ℤ → Manager → Manager × Outcome R
  unfolding run_with tx_options_for_mode
  run_execute d mode sql max_rows m = run_with d mode sql max_rows (tx_options_for_mode mode) m

  -- The connection is closed after an error.
  unfoldable pub recover : Manager × Outcome R → Manager × Outcome R
  unfolding did
  recover (m, failed e) = (record (did close_conn m) { connected = false }, failed e)
  recover (m, returned r) = (m, returned r)

  -- `Execute`.
  unfoldable pub execute : Driver R → Mode → Bytes → ℤ → Manager → Manager × Outcome R
  unfolding recover run_execute did
  execute d mode sql max_rows m =
      let here = recover (run_execute d mode sql max_rows m) in
      let there =
        recover (run_execute d mode sql max_rows (record (did dial m) { connected = true })) in
      if m.connected
      then here
      else if d.succeeds m.calls dial
      then there
      else (did dial m, failed connect_failed)
