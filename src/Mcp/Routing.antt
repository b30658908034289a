-- ===== src/Mcp/Routing.antt =====
-- Routing of a tool call against routing of the command line, and with the pool.
use sql_ai_tools.Prelude.{
  ℕ, ◌≡◌, ◌≢◌, ◌⊎◌, inl, inr, refl, sym, ap, ◌∙◌, Bool, true, false, List, [], ◌∷◌, Option, none,
  some, Bytes, arith, Bool-cases, if◌then◌else◌,
}
use sql_ai_tools.Text.{trim_space}
use sql_ai_tools.Version.Target.{
  TargetError, Validated, refused, canonical, validate_target_version,
}
use sql_ai_tools.Route.Quarter.{Quarter, is_zero, parse_from_target}
use sql_ai_tools.Route.Args.{extract_target_version}
use sql_ai_tools.Route.Built.{Process, built}
use sql_ai_tools.Route.Discover.{Host, find_backend, quarter_eq}
use sql_ai_tools.Route.Discover.Listing.{quarter_eq_iff}
use sql_ai_tools.Route.Reexec.{
  Outcome, maybe_reexec, with_target, route_to, is_built, run_backend, replaced, missing,
  exec_failed,
}
use sql_ai_tools.Route.Reexec.Routing.{is_built_iff}
use sql_ai_tools.Pool.{
  Pool, Checkout, not_installed, checked_out, pool_closed, checkout, reuse, create,
}
use sql_ai_tools.Mcp.{
  Argument, text, not_text, ToolError, must_be_string, bad_target, Resolved, tool_error, resolved,
  resolved_from, resolve_text, resolve_target_version, route_parsed, route_target, forward, handle,
  with_routing, server_quarter,
}

-- What the target of a call is: the default of the server without an argument or with a blank one, and
-- else what the validator makes of the text. An argument that is no text, or that the validator refuses,
-- is a tool error.
pub data Resolves (default : Bytes) : Option Argument → Resolved → Type 0 where
  absent : Resolves default none (resolved default)
  other_value : Resolves default (some not_text) (tool_error must_be_string)
  blank : (s : Bytes) → trim_space s ≡ [] → Resolves default (some (text s)) (resolved default)
  malformed :
      (s : Bytes) (e : TargetError)
      → trim_space s ≢ []
      → validate_target_version (trim_space s) ≡ refused e
      → Resolves default (some (text s)) (tool_error (bad_target e))
  valid :
      (s t : Bytes)
      → trim_space s ≢ []
      → validate_target_version (trim_space s) ≡ canonical t
      → Resolves default (some (text s)) (resolved t)

module _ (default s : Bytes) where
  validated-Resolves :
      (v : Validated)
      → trim_space s ≢ []
      → validate_target_version (trim_space s) ≡ v
      → Resolves default (some (text s)) (resolved_from v)
  unfolding resolved_from
  validated-Resolves (refused e) ne h = malformed s e ne h
  validated-Resolves (canonical t) ne h = valid s t ne h

  text-Resolves :
      (t : Bytes) → trim_space s ≡ t → Resolves default (some (text s)) (resolve_text default t)
  unfolding resolve_text
  text-Resolves [] e = blank s e
  text-Resolves (c ∷ t) e =
      validated-Resolves (validate_target_version (c ∷ t)) (λ h. ground (arith, e, h))
        (ap validate_target_version e)

resolve-Resolves :
    (default : Bytes) (argument : Option Argument)
    → Resolves default argument (resolve_target_version argument default)
unfolding resolve_target_version
resolve-Resolves default none = absent
resolve-Resolves default (some not_text) = other_value
resolve-Resolves default (some (text s)) = text-Resolves default s (trim_space s) refl

-- Where a call goes, by what its target resolves to.
pub data Goes {R : Type 0} (refuse : ToolError → R) (handler : R) (dispatch : Quarter → R)
    (own : Quarter) : Resolved → R → Type 0 where
  to_error : (e : ToolError) → Goes refuse handler dispatch own (tool_error e) (refuse e)
  stays :
      (t : Bytes)
      → (t ≡ [])
        ⊎ (parse_from_target t ≡ none)
        ⊎ (is_zero own ≡ true)
        ⊎ (parse_from_target t ≡ some own)
      → Goes refuse handler dispatch own (resolved t) handler
  goes :
      (t : Bytes) (want : Quarter)
      → parse_from_target t ≡ some want
      → is_zero own ≡ false
      → own ≢ want
      → Goes refuse handler dispatch own (resolved t) (dispatch want)

module _ {R : Type 0} (refuse : ToolError → R) (handler : R) (dispatch : Quarter → R)
    (own : Quarter) where
  parsed-Goes :
      (c : ℕ) (t : Bytes) (o : Option Quarter)
      → parse_from_target (c ∷ t) ≡ o
      → Goes refuse handler dispatch own
          (resolved (c ∷ t))
          (forward handler dispatch (route_parsed own o))
  unfolding route_parsed forward
  parsed-Goes c t none e = stays (c ∷ t) (inr (inl e))
  parsed-Goes c t (some want) e = elim (Bool-cases (is_zero own)) [
    | inl z ↦ rw z (stays (c ∷ t) (inr (inr (inl z))))
    | inr z ↦ elim (Bool-cases (quarter_eq own want)) [
      | inl q ↦
          rw (z, q)
            (stays (c ∷ t) (inr (inr (inr (e ∙ ap some (sym ((quarter_eq_iff own want).0 q)))))))
      | inr q ↦
          rw (z, q) (goes (c ∷ t) want e z (λ h. ground (arith, q, (quarter_eq_iff own want).1 h)))
    ]
  ]

  handle-Goes :
      (r : Resolved) → Goes refuse handler dispatch own r (handle refuse handler dispatch own r)
  unfolding handle route_target forward
  handle-Goes (tool_error e) = to_error e
  handle-Goes (resolved []) = stays [] (inl refl)
  handle-Goes (resolved (c ∷ t)) = parsed-Goes c t (parse_from_target (c ∷ t)) refl

-- A call's target is the server's default, without an argument or with a blank one, or the canonical
-- form that the validator gives its text. The call is forwarded exactly where that parses, the server
-- knows its own quarter, and that differs from the target's; then it goes to the target's quarter. An
-- argument that is no text or that the validator refuses is answered by its tool error, and every other
-- call stays here.
pub with_routing-Goes :
    {R : Type 0} (refuse : ToolError → R) (handler : R) (dispatch : Quarter → R) (default : Bytes)
    (own : Quarter) (argument : Option Argument)
    → (r : Resolved) × (Resolves default argument r
        × Goes refuse handler dispatch own r
            (with_routing refuse handler dispatch default own argument))
unfolding with_routing
with_routing-Goes refuse handler dispatch default own argument =
    let r = resolve_target_version argument default in
    (r, (resolve-Resolves default argument, handle-Goes refuse handler dispatch own r))

route_parsed-some :
    (own want : Quarter) (o : Option Quarter)
    → route_parsed own o ≡ some want
    → (o ≡ some want) × (own ≢ want)
unfolding route_parsed
route_parsed-some own want none e = absurd cc
route_parsed-some own want (some w) e = known (is_zero own) (quarter_eq own w) refl e
  where
    known :
        (z q : Bool)
        → quarter_eq own w ≡ q
        → (if z then none else if q then none else some w) ≡ some want
        → (some w ≡ some want) × (own ≢ want)
    known true q eq h = absurd cc
    known false true eq h = absurd cc
    known false false eq h = (h, λ same. ground (arith, eq, (quarter_eq_iff own w).1, h, same))

route_target-some :
    (own want : Quarter) (t : Bytes)
    → route_target own t ≡ some want
    → (parse_from_target t ≡ some want) × (own ≢ want)
unfolding route_target
route_target-some own want [] e = absurd cc
route_target-some own want (c ∷ t) e = route_parsed-some own want (parse_from_target (c ∷ t)) e

-- What becomes of the process of a command line and of a dispatch on the pool, by the backend that is
-- found for the quarter.
abbrev pub Agree : (Bytes → Bool) → Quarter → Option Bytes → Outcome → ℕ → Checkout → Type 0
Agree starts want none o next r = (o ≡ missing want) × (r ≡ not_installed)
Agree starts want (some path) o next r =
    (o ≡ (if starts path then replaced path else exec_failed want path)) × (r ≡ checked_out next)

run_backend-Agree :
    (starts : Bytes → Bool) (now : ℕ) (want : Quarter) (pool : Pool) (backend : Option Bytes)
    → Agree starts want backend
        (run_backend starts want backend)
        pool.next
        (create now want pool backend).1
unfolding run_backend create
run_backend-Agree starts now want pool none = (refl, refl)
run_backend-Agree starts now want pool (some path) = (refl, refl)

-- With another quarter than the target's, or an unknown one, the command line runs the backend.
reexec-run_backend :
    (starts : Bytes → Bool) (host : Host) (p : Process) (args : List Bytes) (target : Bytes)
    (want : Quarter)
    → extract_target_version args ≡ some target
    → parse_from_target target ≡ some want
    → server_quarter (built p) ≢ want
    → (maybe_reexec starts host p args).1 ≡ run_backend starts want (find_backend host want)
unfolding maybe_reexec with_target route_to server_quarter
reexec-run_backend starts host p args target want extracted parsed ne =
    rw (extracted, parsed, other) refl
  where
    other : is_built want (built p) ≡ false
    other = elim (Bool-cases (is_built want (built p))) [
      | inl b ↦ absurd (ne (ap server_quarter ((is_built_iff want (built p)).0 b)))
      | inr b ↦ b
    ]

checkout-create :
    (host : Host) (now : ℕ) (want : Quarter) (pool : Pool) (b : Bool) (o : Option ℕ)
    → b ≡ false
    → o ≡ none
    → (if b then (pool, pool_closed) else reuse host now want pool o)
      ≡ create now want pool (find_backend host want)
unfolding reuse
checkout-create host now want pool true o e n = absurd cc
checkout-create host now want pool false (some x) e n = absurd cc
checkout-create host now want pool false none e n = refl

-- A call that the server forwards is one that the command line, given the same target and run by a
-- binary of the same quarter, would not answer itself. Where a backend of the quarter is installed, the
-- command line becomes it, or fails where the backend does not start, and an open pool without an entry
-- for the quarter makes one; where none is, both say that it is missing.
pub forwarded_like_reexec :
    (starts : Bytes → Bool) (host : Host) (p : Process) (args : List Bytes) (target : Bytes)
    (want : Quarter) (now : ℕ) (pool : Pool)
    → extract_target_version args ≡ some target
    → route_target (server_quarter (built p)) target ≡ some want
    → pool.closed ≡ false
    → pool.entries want ≡ none
    → Agree starts want
        (find_backend host want)
        (maybe_reexec starts host p args).1
        pool.next
        (checkout host now want pool).1
unfolding checkout
forwarded_like_reexec starts host p args target want now pool extracted routed open_pool empty =
    let (parsed, ne) = route_target-some (server_quarter (built p)) want target routed in
    rw
      (
        reexec-run_backend starts host p args target want extracted parsed ne,
        checkout-create host now want pool pool.closed (pool.entries want) open_pool empty,
      )
      (run_backend-Agree starts now want pool (find_backend host want))
