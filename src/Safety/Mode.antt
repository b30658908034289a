-- ===== src/Safety/Mode.antt =====
-- internal/safety/mode.go, and the enumerations of internal/safety/allowlist.go.
use text.Mathlib.Text.{◌==◌ as str_eq}
use sql_ai_tools.Prelude.{String, if◌then◌else◌}

-- `type Mode string`: the three declared values, and every other string.
pub data Mode : Type 0 where
  read_only safe_write full_access : Mode
  unknown : String → Mode

unfoldable pub token : Mode → String
token read_only = "read_only"
token safe_write = "safe_write"
token full_access = "full_access"
token (unknown s) = s

abbrev pub default_mode : Mode
default_mode = read_only

-- The error of `ParseMode` names the token that it refuses.
pub data Parsed : Type 0 where
  ok : Mode → Parsed
  invalid : String → Parsed

unfoldable pub parse_mode : String → Parsed
parse_mode s =
    if str_eq s ""
    then ok default_mode
    else if str_eq s "read_only"
    then ok read_only
    else if str_eq s "safe_write"
    then ok safe_write
    else if str_eq s "full_access"
    then ok full_access
    else invalid s
