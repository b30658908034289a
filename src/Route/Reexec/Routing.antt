-- ===== src/Route/Reexec/Routing.antt =====
-- Where `maybeReexec` sends the call.
use sql_ai_tools.Prelude.{
  ◌≡◌, ◌≢◌, ◌⊎◌, inl, inr, ◌↔◌, ◌⊎◌, refl, Bool, true, false, List, ◌++◌, Option, none, some, suc,
  ◌<◌, arith, Bytes, codes, All-append, ◌==◌, if◌then◌else◌, Bool-cases, inl, inr,
}
use sql_ai_tools.Text.{trim_suffix}
use sql_ai_tools.Text.Decimal.{int_limit}
use sql_ai_tools.Text.Laws.{
  Lacks, trim_suffix-Lacks, trim_suffix-append, trim_prefix-append, has_prefix-append,
}
use sql_ai_tools.Route.Quarter.{Quarter, tag, backend_name, parse_from_target}
use sql_ai_tools.Route.Quarter.Validity.{IsValid, not_is_zero}
use sql_ai_tools.Route.Quarter.RoundTrip.{parse_tag-tag, tag-Lacks}
use sql_ai_tools.Route.Args.{extract_target_version}
use sql_ai_tools.Route.Built.{Process, from_base, built, backend_prefix}
use sql_ai_tools.Route.Discover.{Host, find_backend}
use sql_ai_tools.Route.Discover.Listing.{quarter_eq_iff}
use sql_ai_tools.Route.Reexec.{
  Outcome, proceed, replaced, missing, exec_failed, maybe_reexec, with_target, route_to,
  run_backend, is_built,
}

pub is_built_iff :
    (want : Quarter) (own : Option Quarter) → (is_built want own ≡ true) ↔ (own ≡ some want)
unfolding is_built
is_built_iff want none = (λ h. cc, λ h. cc)
is_built_iff want (some q) = (
  λ h. ground (arith, (quarter_eq_iff want q).0 h),
  λ h. (quarter_eq_iff want q).1 (ground arith),
)

module _ (starts : Bytes → Bool) (host : Host) (want : Quarter) (own : Option Quarter) where
  -- What becomes of the process, by its own quarter and the backend that is found.
  abbrev pub Decided : Outcome → Type 0
  Decided o =
      ((own ≡ some want) × (o ≡ proceed))
      ⊎ ((own ≢ some want) × (find_backend host want ≡ none) × (o ≡ missing want))
      ⊎ ((own ≢ some want)
          × ((path : Bytes) × ((find_backend host want ≡ some path)
                × (o ≡ (if starts path then replaced path else exec_failed want path)))))

  found_cases :
      (found : Option Bytes)
      → own ≢ some want
      → find_backend host want ≡ found
      → Decided (run_backend starts want found)
  unfolding run_backend
  found_cases none ne e = inr (inl (ne, e, refl))
  found_cases (some path) ne e = inr (inr (ne, (path, (e, refl))))

  route_cases : Decided (route_to starts host own (some want))
  unfolding route_to
  route_cases = elim (Bool-cases (is_built want own)) [
    | inl b ↦ inl ((is_built_iff want own).0 b, rw b refl)
    | inr b ↦ rw b (
        found_cases (find_backend host want) (λ e. ground (arith, b, (is_built_iff want own).1 e))
          refl)
  ]

module _ (starts : Bytes → Bool) (host : Host) (p : Process) (args : List Bytes) where
  -- With a target that parses, this binary goes on where it is known to be of that quarter, and only
  -- there. Otherwise the process becomes the backend that is found for the quarter, or exits: a
  -- missing backend never falls back to this binary.
  pub routed_exactly :
      (raw : Bytes) (want : Quarter)
      → extract_target_version args ≡ some raw
      → parse_from_target raw ≡ some want
      → Decided starts host want (built p) (maybe_reexec starts host p args).1
  unfolding maybe_reexec
  routed_exactly raw want er ep = rw (er, with_target, ep) (route_cases starts host want (built p))

  own_goes_on :
      (raw : Bytes) (want : Quarter)
      → extract_target_version args ≡ some raw
      → parse_from_target raw ≡ some want
      → built p ≡ some want
      → (maybe_reexec starts host p args).1 ≡ proceed
  own_goes_on raw want er ep own = elim (routed_exactly raw want er ep) [
    | inl (_, e) ↦ e
    | inr (inl (ne, _, _)) ↦ absurd (ne own)
    | inr (inr (ne, _)) ↦ absurd (ne own)
  ]

  -- Without the flag, or with a value that does not parse, this binary goes on.
  unrouted :
      (extract_target_version args ≡ none)
        ⊎ ((raw : Bytes) × (extract_target_version args ≡ some raw)
            × (parse_from_target raw ≡ none))
      → (maybe_reexec starts host p args).1 ≡ proceed
  unfolding maybe_reexec with_target route_to
  unrouted h = ground arith

module _ (want : Quarter) (v : IsValid want) (fits : suc v.y < int_limit) where
  backend_name_lem : backend_name want ≡ backend_prefix ++ tag want
  unfolding backend_name
  backend_name_lem = rw (not_is_zero want v) refl

  name-Lacks : Lacks b'.' (backend_name want)
  name-Lacks = rw backend_name_lem (
      All-append (λ c. (c == b'.') ≡ false) backend_prefix (tag want)
        (refl, (refl, (refl, (refl, (refl, (refl, (refl, (refl, (refl, tt)))))))))
        (tag-Lacks want v))

  from_name :
      (base : Bytes)
      → trim_suffix base (codes ".exe") ≡ backend_name want
      → from_base (some base) ≡ some want
  unfolding from_base
  from_name base e =
      rw
        (
          e,
          backend_name_lem,
          has_prefix-append backend_prefix (tag want),
          trim_prefix-append backend_prefix (tag want),
        )
        (parse_tag-tag want v fits).0

  built_of_base :
      (p : Process) (base : Bytes)
      → p.executable_base ≡ some base
      → trim_suffix base (codes ".exe") ≡ backend_name want
      → built p ≡ some want
  unfolding built
  built_of_base p base e n = rw (e, from_name base n) refl

  -- A binary that runs under the name of a quarter in range, with the suffix of Windows or without,
  -- is taken for that quarter, whatever its stamp and its build information say: asked for it, it
  -- goes on, so two backends cannot replace one another for ever.
  named_backend_stays :
      (starts : Bytes → Bool) (host : Host) (p : Process) (args : List Bytes) (raw : Bytes)
      → (p.executable_base ≡ some (backend_name want))
        ⊎ (p.executable_base ≡ some (backend_name want ++ codes ".exe"))
      → extract_target_version args ≡ some raw
      → parse_from_target raw ≡ some want
      → (built p ≡ some want) × ((maybe_reexec starts host p args).1 ≡ proceed)
  named_backend_stays starts host p args raw name er ep =
      (known name, own_goes_on starts host p args raw want er ep (known name))
    where
      known :
          (p.executable_base ≡ some (backend_name want))
            ⊎ (p.executable_base ≡ some (backend_name want ++ codes ".exe"))
          → built p ≡ some want
      known (inl e) = built_of_base p _ e (trim_suffix-Lacks b'.' (codes "exe") _ name-Lacks)
      known (inr e) = built_of_base p _ e (trim_suffix-append b'.' (codes "exe") _ name-Lacks)
