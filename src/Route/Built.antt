-- ===== src/Route/Built.antt =====
-- The quarter of the running binary (internal/versionroute/quarter.go): from its file name, its
-- build stamp, or the parser module that the build information records. What the operating system
-- and the Go runtime report is an argument; a failed call is `none`.
use sql_ai_tools.Prelude.{List, [], ◌∷◌, Option, none, some, Bytes, codes, if◌then◌else◌}
use sql_ai_tools.Text.{bytes_eq, has_prefix, trim_prefix, trim_suffix}
use sql_ai_tools.Route.Quarter.{Quarter, parse_tag, parse_fork_version}

-- `debug.Module`: the fields that are read. `replace` is the version of the replacement, if any.
pub record Dep : Type 0 where
  pub path : Bytes
  pub version : Bytes
  pub replace : Option Bytes

pub record Process : Type 0 where
  -- `filepath.Base` of `os.Executable()`
  pub executable_base : Option Bytes
  -- `builtQuarterStamp`
  pub stamp : Bytes
  -- the dependencies of `debug.ReadBuildInfo()`
  pub build_info : Option (List Dep)

abbrev pub parser_module_path : Bytes
parser_module_path = codes "github.com/cockroachdb/cockroachdb-parser"

abbrev pub backend_prefix : Bytes
backend_prefix = codes "crdb-sql-"

unfoldable pub from_base : Option Bytes → Option Quarter
from_base none = none
from_base (some base) =
    let name = trim_suffix base (codes ".exe") in
    if has_prefix name backend_prefix then parse_tag (trim_prefix name backend_prefix) else none

unfoldable pub quarter_from_executable : Process → Option Quarter
unfolding from_base
quarter_from_executable p = from_base p.executable_base

or_version : Bytes → Bytes → Bytes
or_version [] version = version
or_version (c ∷ replaced) version = c ∷ replaced

dep_version : Option Bytes → Bytes → Bytes
unfolding or_version
dep_version none version = version
dep_version (some replaced) version = or_version replaced version

fork_quarter : Bytes → Option Quarter
fork_quarter [] = none
fork_quarter (c ∷ ver) = parse_fork_version (c ∷ ver)

-- The loop over the dependencies stops at the parser's.
unfoldable pub quarter_from_deps : List Dep → Option Quarter
unfolding fork_quarter dep_version
quarter_from_deps [] = none
quarter_from_deps (d ∷ rest) =
    let others = quarter_from_deps rest in
    if bytes_eq d.path parser_module_path
    then fork_quarter (dep_version d.replace d.version)
    else others

from_info : Option (List Dep) → Option Quarter
unfolding quarter_from_deps
from_info none = none
from_info (some deps) = quarter_from_deps deps

unfoldable pub built_quarter_from_build_info : Process → Option Quarter
unfolding from_info
built_quarter_from_build_info p = from_info p.build_info

from_stamp : Bytes → Process → Option Quarter
unfolding built_quarter_from_build_info
from_stamp [] p = built_quarter_from_build_info p
from_stamp (c ∷ stamp) p = parse_tag (c ∷ stamp)

first_of : Option Quarter → Option Quarter → Option Quarter
first_of (some q) rest = some q
first_of none rest = rest

-- `Built`.
unfoldable pub built : Process → Option Quarter
unfolding first_of quarter_from_executable from_stamp
built p = first_of (quarter_from_executable p) (from_stamp p.stamp p)

diagnose : Bytes → Option Quarter → Option Bytes
diagnose [] parsed = none
diagnose (c ∷ stamp) (some q) = none
diagnose (c ∷ stamp) none = some (c ∷ stamp)

-- `StampDiagnostic`: the malformed stamp that the message quotes.
unfoldable pub stamp_diagnostic : Process → Option Bytes
unfolding diagnose
stamp_diagnostic p = diagnose p.stamp (parse_tag p.stamp)
