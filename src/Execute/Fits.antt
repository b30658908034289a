-- ===== src/Execute/Fits.antt =====
-- The calls of one statement fit its mode and its text, and the last one closes the connection.
use sql_ai_tools.Prelude.{
  ℕ, ◌≡◌, refl, sym, ap, ◌∙◌, Bool, true, false, List, [], ◌∷◌, ◌++◌, some, Bytes, All, All-append,
  ◌⊎◌, inl, inr, append_assoc,
}
use sql_ai_tools.Prelude.Int.{ℤ}
use sql_ai_tools.Safety.Mode.{Mode, read_only, safe_write, full_access, unknown}
use sql_ai_tools.Execute.{
  Call, dial, begin_tx, query, close_rows, commit, rollback, close_conn, Manager, Outcome,
  tx_options_for_mode, did,
}
use sql_ai_tools.Execute.Script.{script, guards}
use sql_ai_tools.Execute.Conversation.{
  Conversation, RunsIn-tx_options, refused, not_begun, stopped, completed, opening_for, Talked,
}
use sql_ai_tools.Execute.Tool.{Diagnostic, close_manager, answered}

-- The calls that a conversation may make: the one query, and the transaction of the mode.
abbrev pub Fits : Mode → Bytes → Call → Type 0
Fits mode sql (query q) = q ≡ sql
Fits mode sql (begin_tx access) = tx_options_for_mode mode ≡ some access
Fits mode sql _ = Unit

module _ (timeout : ℕ) (mode : Mode) (sql : Bytes) where
  script-Fits : All (Fits mode sql) (script timeout mode sql)
  script-Fits = (tt, tail mode)
    where
      tail : (m : Mode) → All (Fits mode sql) (guards m ++ query sql ∷ close_rows ∷ commit ∷ [])
      tail safe_write = (tt, (refl, (tt, (tt, tt))))
      tail read_only = (refl, (tt, (tt, tt)))
      tail full_access = (refl, (tt, (tt, tt)))
      tail (unknown s) = (refl, (tt, (tt, tt)))

  first-Fits : (xs ys : List Call) → All (Fits mode sql) (xs ++ ys) → All (Fits mode sql) xs
  first-Fits [] ys h = tt
  first-Fits (x ∷ xs) ys h = (h.0, first-Fits xs ys h.1)

  Conversation-Fits :
      (calls : List Call) (b : Bool)
      → Conversation timeout mode sql calls b
      → All (Fits mode sql) calls
  Conversation-Fits _ _ (refused s at) = (tt, tt)
  Conversation-Fits _ _ (not_begun access at) = (RunsIn-tx_options at, (tt, tt))
  Conversation-Fits _ _ (stopped access taken left at whole) = (
    RunsIn-tx_options at,
    All-append (Fits mode sql) taken (rollback ∷ close_conn ∷ [])
        (first-Fits taken left (rw whole script-Fits)) (tt, (tt, tt)),
  )
  Conversation-Fits _ _ (completed access at) = (
    RunsIn-tx_options at,
    All-append (Fits mode sql) (script timeout mode sql) (rollback ∷ []) script-Fits (tt, tt),
  )

-- The last call closes the connection, or there was never one.
abbrev pub Closes : List Call → Type 0
Closes calls = (calls ≡ dial ∷ []) ⊎ ((front : List Call) × (calls ≡ front ++ close_conn ∷ []))

failed-Closes :
    (timeout : ℕ) (mode : Mode) (sql : Bytes) (calls : List Call) (b : Bool)
    → Conversation timeout mode sql calls b
    → b ≡ false
    → (front : List Call) × (calls ≡ front ++ close_conn ∷ [])
failed-Closes timeout mode sql _ _ (refused s at) e = ([], refl)
failed-Closes timeout mode sql _ _ (not_begun access at) e = (begin_tx access ∷ [], refl)
failed-Closes timeout mode sql _ _ (stopped access taken left at whole) e =
    (begin_tx access ∷ taken ++ rollback ∷ [], simp append_assoc refl)
failed-Closes timeout mode sql _ _ (completed access at) e = cc

-- Calls that fit, the last of which closes the connection.
abbrev pub Kept : Mode → Bytes → List Call → Type 0
Kept mode sql calls = All (Fits mode sql) calls × Closes calls

opening-Fits : (mode : Mode) (sql : Bytes) (b : Bool) → All (Fits mode sql) (opening_for b)
opening-Fits mode sql true = tt
opening-Fits mode sql false = (tt, tt)

-- The manager that the handler makes.
abbrev pub fresh : ℕ → Manager
fresh timeout = record { connected = false; timeout = timeout; calls = [] }

-- The calls of a conversation behind those that made the connection.
opened-Kept :
    (timeout : ℕ) (mode : Mode) (sql : Bytes) (c : Bool) (calls : List Call)
    → Conversation timeout mode sql calls false
    → Kept mode sql (opening_for c ++ calls)
opened-Kept timeout mode sql c calls talk =
    let (front, e) = failed-Closes timeout mode sql calls false talk refl in
    (
      All-append (Fits mode sql) (opening_for c) calls (opening-Fits mode sql c)
          (Conversation-Fits timeout mode sql calls false talk),
      inr (
        opening_for c ++ front,
        ap (λ (xs : List Call). opening_for c ++ xs) e
            ∙ sym (append_assoc (opening_for c) front (close_conn ∷ [])),
      ),
    )

closed-Kept :
    (timeout : ℕ) (mode : Mode) (sql : Bytes) (c : Bool) (calls : List Call)
    → Conversation timeout mode sql calls true
    → Kept mode sql ((opening_for c ++ calls) ++ close_conn ∷ [])
closed-Kept timeout mode sql c calls talk = (
  All-append (Fits mode sql) (opening_for c ++ calls) (close_conn ∷ [])
      (All-append (Fits mode sql) (opening_for c) calls (opening-Fits mode sql c)
        (Conversation-Fits timeout mode sql calls true talk))
      (tt, tt),
  inr (opening_for c ++ calls, refl),
)

module _ {E R : Type 0} where
  pub answered-Kept :
      (mode : Mode) (sql : Bytes) (notes : List (Diagnostic E)) (b : Bool) (max_rows : ℤ)
      (timeout : ℕ) (r : Manager × Outcome R)
      → Talked mode sql (fresh timeout) r
      → Kept mode sql (answered notes b max_rows r).1
  unfolding answered close_manager did
  answered-Kept mode sql notes b max_rows timeout (m, Outcome.failed e) t =
      let made : m.calls ≡ opening_for false ++ t.calls =
        t.made ∙ ap (λ (xs : List Call). xs ++ t.calls) t.opened in
      rw (t.kept, made)
        (elim t.talk [
          | inl (none_made, x, y) ↦ rw none_made ((tt, tt), inl refl)
          | inr talk ↦ opened-Kept timeout mode sql false t.calls talk
        ])
  answered-Kept mode sql notes b max_rows timeout (m, Outcome.returned r) t =
      let made : m.calls ≡ opening_for false ++ t.calls =
        t.made ∙ ap (λ (xs : List Call). xs ++ t.calls) t.opened in
      rw (t.kept, made)
        (elim t.talk [
          | inl (none_made, x, y) ↦ absurd cc
          | inr talk ↦ closed-Kept timeout mode sql false t.calls talk
        ])
