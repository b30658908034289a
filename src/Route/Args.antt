-- ===== src/Route/Args.antt =====
-- `extractTargetVersion` of internal/versionroute/quarter.go: the scan of the arguments that runs
-- before the flag parser.
pub mod Scan
use sql_ai_tools.Prelude.{Bool, List, [], ◌∷◌, Option, none, some, Bytes, codes, if◌then◌else◌}
use sql_ai_tools.Text.{bytes_eq, has_prefix, trim_prefix}

abbrev pub flag : Bytes
flag = codes "--target-version"

abbrev pub flag_eq : Bytes
flag_eq = codes "--target-version="

abbrev pub end_of_options : Bytes
end_of_options = codes "--"

-- The value of a flag is the next argument, or empty.
unfoldable pub next_value : List Bytes → Bytes
next_value [] = []
next_value (a ∷ rest) = a

-- The loop, from the argument that it reads on.
unfoldable pub scan_args : List Bytes → Option Bytes
unfolding next_value
scan_args [] = none
scan_args (a ∷ rest) =
    let others = scan_args rest in
    if bytes_eq a end_of_options
    then none
    else if bytes_eq a flag
    then some (next_value rest)
    else if has_prefix a flag_eq
    then some (trim_prefix a flag_eq)
    else others

-- The program's name is skipped.
unfoldable pub extract_target_version : List Bytes → Option Bytes
unfolding scan_args
extract_target_version [] = none
extract_target_version (program ∷ args) = scan_args args
