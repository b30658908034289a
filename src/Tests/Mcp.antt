-- ===== src/Tests/Mcp.antt =====
-- Routing of tool calls.
use sql_ai_tools.Route.Args.{extract_target_version}
use sql_ai_tools.Text.Decimal.{parse_uint32, atoi}
use sql_ai_tools.Version.Target.{validate_target_version}
use sql_ai_tools.Prelude.{◌≡◌, refl, Bool, true, List, [], ◌∷◌, ◌++◌, none, some, Bytes, codes}
use sql_ai_tools.Prelude.Int.{pos}
use sql_ai_tools.Text.{bytes_eq, trim_space, split, trim_prefix, has_prefix, trim_suffix}
use sql_ai_tools.Route.Quarter.{Quarter, parse_from_target, parse_tag}
use sql_ai_tools.Route.Built.{Process, built}
use sql_ai_tools.Route.Discover.{Host, find_backend}
use sql_ai_tools.Route.Reexec.{maybe_reexec}
use sql_ai_tools.Pool.{Pool, checkout}
use sql_ai_tools.Pool.System.{start}
use sql_ai_tools.Mcp.{
  text, not_text, ToolError, must_be_string, Resolved, with_routing, route_target, server_quarter,
}
use sql_ai_tools.Mcp.Routing.{Resolves, Goes, with_routing-Goes, Agree, forwarded_like_reexec}

abbrev autumn : Quarter
autumn = record { year = pos 25; q = pos 4 }

abbrev winter : Quarter
winter = record { year = pos 26; q = pos 1 }

-- What a call can come to: an error, this server's answer, or a forwarded call.
data Answer : Type 0 where
  error : ToolError → Answer
  local : Answer
  forwarded : Quarter → Answer

asked :
    with_routing error local forwarded [] winter (some (text (codes " 25.4.1 "))) ≡ forwarded autumn
unfolding with_routing trim_space validate_target_version split trim_prefix has_prefix parse_uint32
    parse_from_target atoi
asked = refl

own : with_routing error local forwarded (codes "26.1") winter none ≡ local
unfolding with_routing parse_from_target split trim_prefix has_prefix trim_space atoi
own = refl

wrong_type : with_routing error local forwarded [] winter (some not_text) ≡ error must_be_string
unfolding with_routing
wrong_type = refl

with_routing-Goes_example :
    (r : Resolved) × (Resolves [] (some (text (codes "25.4"))) r
      × Goes error local forwarded winter r
          (with_routing error local forwarded [] winter (some (text (codes "25.4")))))
with_routing-Goes_example =
    with_routing-Goes error local forwarded [] winter (some (text (codes "25.4")))

abbrev host : Host
host = record {
  self_dir = some (codes "/b");
  self_path = some (codes "/b/crdb-sql-v261");
  path_list = [];
  read_dir = λ dir. some [];
  join = λ dir name. dir ++ b'/' ∷ name;
  abs = λ path. some path;
  base = λ path. path;
  exec_suffix = [];
  is_executable = λ path. bytes_eq path (codes "/b/crdb-sql-v254");
}

abbrev server : Process
server = record { executable_base = some (codes "crdb-sql-v261"); stamp = []; build_info = none }

abbrev args : List Bytes
args = codes "crdb-sql-v261" ∷ codes "--target-version" ∷ codes "25.4" ∷ []

abbrev fresh : Pool
fresh = (start (pos 300)).pool

abbrev starts : Bytes → Bool
starts path = true

forwarded_like_reexec_example :
    Agree starts autumn
      (find_backend host autumn)
      (maybe_reexec starts host server args).1
      0
      (checkout host 100 autumn fresh).1
unfolding extract_target_version bytes_eq route_target parse_from_target split trim_prefix
    has_prefix trim_space atoi server_quarter built trim_suffix parse_tag
forwarded_like_reexec_example =
    forwarded_like_reexec starts host server args (codes "25.4") autumn 100 fresh refl refl refl
      refl
