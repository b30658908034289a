-- ===== src/Tests/Route.antt =====
-- internal/versionroute on a machine with one backend.
use sql_ai_tools.Text.Decimal.{atoi, itoa}
use sql_ai_tools.Prelude.{
  ◌≡◌, refl, Bool, true, false, List, [], ◌∷◌, ◌++◌, none, some, Bytes, codes, arith, drop,
}
use sql_ai_tools.Prelude.Int.{pos}
use sql_ai_tools.Text.{bytes_eq, has_prefix, split, trim_prefix, is_space, trim_suffix, trim_space}
use sql_ai_tools.Route.Quarter.{
  Quarter, zero_quarter, is_zero, string, backend_name, parse_tag, parse_from_target,
  parse_fork_version,
}
use sql_ai_tools.Route.Quarter.Validity.{IsValid}
use sql_ai_tools.Route.Quarter.RoundTrip.{parse_from_target-string}
use sql_ai_tools.Route.Args.{extract_target_version}
use sql_ai_tools.Route.Built.{Process, built}
use sql_ai_tools.Route.Discover.{
  Host, Backend, find_backend, discovered, discover, search_dirs, add_candidate, quarter_less,
}
use sql_ai_tools.Route.Discover.Distinct.{FoundInv, discovered-FoundInv}
use sql_ai_tools.Route.Reexec.{maybe_reexec, replaced}
use sql_ai_tools.Route.Reexec.Routing.{Decided, routed_exactly}

abbrev autumn : Quarter
autumn = record { year = pos 25; q = pos 4 }

abbrev autumn_valid : IsValid autumn
autumn_valid = record { y = 24; k = 3; year_eq = refl; q_eq = refl; ordinal = omega arith }

fork_release : parse_fork_version (codes "v0.25.4-crdb.1") ≡ some autumn
unfolding parse_fork_version split trim_prefix has_prefix atoi
fork_release = refl

loose_tag : parse_tag (codes "v+254") ≡ some autumn
unfolding parse_tag trim_prefix has_prefix atoi
loose_tag = refl

parse_from_target-string_example :
    (parse_from_target (string autumn) ≡ some autumn)
    × (parse_from_target (b'v' ∷ string autumn) ≡ some autumn)
    × (parse_from_target (string autumn ++ (b'.' ∷ codes "3")) ≡ some autumn)
    × (parse_from_target (b'v' ∷ (string autumn ++ (b'.' ∷ codes "3"))) ≡ some autumn)
unfolding is_space
parse_from_target-string_example =
    parse_from_target-string autumn autumn_valid (codes "3") (omega arith) (refl, tt)

abbrev program : Bytes
program = codes "crdb-sql"

-- One directory with the backend of 25.4, listed twice on the search path.
abbrev host : Host
host = record {
  self_dir = some (codes "/b");
  self_path = some (codes "/b/crdb-sql");
  path_list = codes "/b" ∷ [] ∷ [];
  read_dir = λ dir. some (record { name = codes "crdb-sql-v254"; is_dir = false } ∷ []);
  join = λ dir name. dir ++ b'/' ∷ name;
  abs = λ path. some path;
  base = λ path. drop 3 path;
  exec_suffix = [];
  is_executable = λ path. bytes_eq path (codes "/b/crdb-sql-v254");
}

abbrev listed : Backend
listed = record { quarter = autumn; path = codes "/b/crdb-sql-v254"; is_self = false }

abbrev running : Backend
running = record { quarter = zero_quarter; path = codes "/b/crdb-sql"; is_self = true }

discover_run : discover host none ≡ running ∷ listed ∷ []
unfolding discover bytes_eq search_dirs has_prefix add_candidate trim_suffix parse_tag trim_prefix
    atoi quarter_less is_zero
discover_run = refl

discovered-FoundInv_example : FoundInv host (discovered host none)
discovered-FoundInv_example = discovered-FoundInv host none

-- The router runs under its plain name; a backend runs under the name of its quarter.
abbrev router : Process
router = record { executable_base = some (codes "crdb-sql"); stamp = []; build_info = none }

abbrev backend : Process
backend = record { executable_base = some (backend_name autumn); stamp = []; build_info = none }

abbrev call : List Bytes
call = program ∷ codes "--target-version" ∷ codes "25.4.1" ∷ []

abbrev starts : Bytes → Bool
starts path = true

routed_exactly_example :
    Decided starts host autumn (built router) (maybe_reexec starts host router call).1
unfolding extract_target_version parse_from_target bytes_eq split trim_prefix has_prefix trim_space
    atoi
routed_exactly_example = routed_exactly starts host router call (codes "25.4.1") autumn refl refl

router_runs_backend : (maybe_reexec starts host router call).1 ≡ replaced (codes "/b/crdb-sql-v254")
unfolding maybe_reexec extract_target_version bytes_eq parse_from_target split trim_prefix
    has_prefix trim_space atoi built trim_suffix find_backend backend_name itoa
router_runs_backend = refl
