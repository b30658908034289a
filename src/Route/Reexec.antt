-- ===== src/Route/Reexec.antt =====
-- `maybeReexec` of internal/versionroute/route.go. Writing to stderr, exiting and replacing the
-- process are outcomes; whether the replacement fails is an argument.
pub mod Routing
use sql_ai_tools.Prelude.{Bool, List, Option, none, some, Bytes, ◌&&◌, if◌then◌else◌}
use sql_ai_tools.Route.Quarter.{Quarter, parse_from_target}
use sql_ai_tools.Route.Args.{extract_target_version}
use sql_ai_tools.Route.Built.{Process, built, stamp_diagnostic}
use sql_ai_tools.Route.Discover.{Host, find_backend, quarter_eq}

pub data Outcome : Type 0 where
  -- `main` goes on in this binary
  proceed : Outcome
  -- the process is replaced by the backend at the path
  replaced : Bytes → Outcome
  -- exit 2 with the missing-backend message
  missing : Quarter → Outcome
  -- exit 2: the backend at the path did not start
  exec_failed : Quarter → Bytes → Outcome

unfoldable pub run_backend : (Bytes → Bool) → Quarter → Option Bytes → Outcome
run_backend starts want none = missing want
run_backend starts want (some path) = if starts path then replaced path else exec_failed want path

unfoldable pub is_built : Quarter → Option Quarter → Bool
is_built want none = Bool.false
is_built want (some q) = quarter_eq want q

unfoldable pub route_to : (Bytes → Bool) → Host → Option Quarter → Option Quarter → Outcome
unfolding run_backend is_built
route_to starts host own none = proceed
route_to starts host own (some want) =
    if is_built want own then proceed else run_backend starts want (find_backend host want)

unfoldable pub with_target : (Bytes → Bool) → Host → Option Quarter → Option Bytes → Outcome
unfolding route_to
with_target starts host own none = proceed
with_target starts host own (some raw) = route_to starts host own (parse_from_target raw)

-- The diagnostic that is printed first, and the outcome.
unfoldable pub maybe_reexec : (Bytes → Bool) → Host → Process → List Bytes → Option Bytes × Outcome
unfolding with_target
maybe_reexec starts host p args =
    (stamp_diagnostic p, with_target starts host (built p) (extract_target_version args))
