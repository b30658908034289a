-- ===== src/Mcp.antt =====
-- internal/mcp/routing.go and the target version of a tool call, internal/mcp/tools/tools.go: whether
-- a call is answered here or by the backend of another quarter.
pub mod Routing
use sql_ai_tools.Prelude.{Bool, true, false, [], ◌∷◌, Option, none, some, Bytes, if◌then◌else◌}
use sql_ai_tools.Text.{trim_space}
use sql_ai_tools.Version.Target.{
  TargetError, Validated, refused, canonical, validate_target_version,
}
use sql_ai_tools.Route.Quarter.{Quarter, zero_quarter, is_zero, parse_from_target}
use sql_ai_tools.Route.Discover.{quarter_eq}

-- The argument `target_version` of a call where it is present: a string, or a value of another type.
pub data Argument : Type 0 where
  text : Bytes → Argument
  not_text : Argument

-- The tool errors of `resolveTargetVersion`.
pub data ToolError : Type 0 where
  must_be_string : ToolError
  bad_target : TargetError → ToolError

pub data Resolved : Type 0 where
  tool_error : ToolError → Resolved
  resolved : Bytes → Resolved

unfoldable pub resolved_from : Validated → Resolved
resolved_from (refused e) = tool_error (bad_target e)
resolved_from (canonical t) = resolved t

unfoldable pub resolve_text : Bytes → Bytes → Resolved
unfolding resolved_from
resolve_text default [] = resolved default
resolve_text default (c ∷ s) = resolved_from (validate_target_version (c ∷ s))

-- `resolveTargetVersion`.
unfoldable pub resolve_target_version : Option Argument → Bytes → Resolved
unfolding resolve_text
resolve_target_version none default = resolved default
resolve_target_version (some not_text) default = tool_error must_be_string
resolve_target_version (some (text s)) default = resolve_text default (trim_space s)

unfoldable pub route_parsed : Quarter → Option Quarter → Option Quarter
unfolding is_zero quarter_eq
route_parsed built none = none
route_parsed built (some want) =
    if is_zero built then none else if quarter_eq built want then none else some want

-- `routeTarget`.
unfoldable pub route_target : Quarter → Bytes → Option Quarter
unfolding route_parsed
route_target built [] = none
route_target built (c ∷ target) = route_parsed built (parse_from_target (c ∷ target))

unfoldable pub forward : {R : Type 0} → R → (Quarter → R) → Option Quarter → R
forward handler dispatch none = handler
forward handler dispatch (some want) = dispatch want

unfoldable pub handle : {R : Type 0} → (ToolError → R) → R → (Quarter → R) → Quarter → Resolved → R
unfolding forward route_target
handle refuse handler dispatch built (tool_error e) = refuse e
handle refuse handler dispatch built (resolved target) =
    forward handler dispatch (route_target built target)

-- `withRouting`: what a tool error, the handler and the router's `Dispatch` answer are arguments.
unfoldable pub with_routing :
    {R : Type 0} → (ToolError → R) → R → (Quarter → R) → Bytes → Quarter → Option Argument → R
unfolding handle resolve_target_version
with_routing refuse handler dispatch default built argument =
    handle refuse handler dispatch built (resolve_target_version argument default)

-- `built, _ := versionroute.Built()`: the zero quarter where it is not known.
unfoldable pub server_quarter : Option Quarter → Quarter
server_quarter none = zero_quarter
server_quarter (some q) = q
