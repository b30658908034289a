-- ===== src/Route/Discover.antt =====
-- internal/versionroute/discover.go: the search for backends. The file system is an argument.
pub mod Listing
pub mod Distinct
use sql_ai_tools.Prelude.{
  ℕ, Bool, true, false, ◌&&◌, ◌||◌, not, List, [], ◌∷◌, ◌++◌, Option, none, some, Bytes, codes, ltb,
  ◌==◌, if◌then◌else◌,
}
use sql_ai_tools.Prelude.Int.{ℤ, pos, negsuc}
use sql_ai_tools.Text.{bytes_eq, has_prefix, trim_prefix, trim_suffix}
use sql_ai_tools.Route.Quarter.{Quarter, zero_quarter, is_zero, backend_name, parse_tag}
use sql_ai_tools.Route.Built.{backend_prefix}

pub record DirEntry : Type 0 where
  pub name : Bytes
  pub is_dir : Bool

-- What discovery asks of the host: the directory and the absolute path of the running binary, the
-- entries of `$PATH` (`filepath.SplitList`), the entries of a directory (`none` where it cannot be
-- read), `filepath.Join`, `filepath.Abs`, `filepath.Base`, the platform's suffix, and whether a path
-- is a regular file that can be run (`isExecutable`, a call of `os.Stat`).
pub record Host : Type 0 where
  pub self_dir : Option Bytes
  pub self_path : Option Bytes
  pub path_list : List Bytes
  pub read_dir : Bytes → Option (List DirEntry)
  pub join : Bytes → Bytes → Bytes
  pub abs : Bytes → Option Bytes
  pub base : Bytes → Bytes
  pub exec_suffix : Bytes
  pub is_executable : Bytes → Bool

pub record Backend : Type 0 where
  pub quarter : Quarter
  pub path : Bytes
  pub is_self : Bool

is_empty : Bytes → Bool
is_empty [] = true
is_empty (c ∷ s) = false

-- Empty entries are skipped.
non_empty : List Bytes → List Bytes
non_empty [] = []
non_empty (p ∷ ps) = let rest = non_empty ps in if is_empty p then rest else p ∷ rest

unfoldable pub path_dirs : Host → List Bytes
unfolding non_empty is_empty
path_dirs host = non_empty host.path_list

-- The directories in search order: the binary's own, then those of `$PATH`.
unfoldable pub search_dirs : Host → List Bytes
unfolding path_dirs
search_dirs host = elim host.self_dir [
  | none ↦ path_dirs host
  | some dir ↦ if is_empty dir then path_dirs host else dir ∷ path_dirs host
]

first_executable : Host → Bytes → List Bytes → Option Bytes
first_executable host name [] = none
first_executable host name (dir ∷ dirs) =
    let others = first_executable host name dirs in
    if host.is_executable (host.join dir name) then some (host.join dir name) else others

-- `FindBackend`.
unfoldable pub find_backend : Host → Quarter → Option Bytes
unfolding search_dirs first_executable
find_backend host want =
    first_executable host (backend_name want ++ host.exec_suffix) (search_dirs host)

unfoldable pub int_eq : ℤ → ℤ → Bool
int_eq (pos m) (pos n) = m == n
int_eq (negsuc m) (negsuc n) = m == n
int_eq _ _ = false

unfoldable pub int_lt : ℤ → ℤ → Bool
int_lt (pos m) (pos n) = ltb m n
int_lt (pos m) (negsuc n) = false
int_lt (negsuc m) (pos n) = true
int_lt (negsuc m) (negsuc n) = ltb n m

-- `==` on quarters.
unfoldable pub quarter_eq : Quarter → Quarter → Bool
unfolding int_eq
quarter_eq a b = int_eq a.year b.year && int_eq a.q b.q

unfoldable pub quarter_less : Quarter → Quarter → Bool
unfolding int_eq int_lt
quarter_less a b =
    if is_zero a
    then false
    else if is_zero b
    then true
    else if not (int_eq a.year b.year)
    then int_lt a.year b.year
    else int_lt a.q b.q

-- The state of the closure `addCandidate`. A quarter is in `seen_quarters` only by a listed backend.
pub record Found : Type 0 where
  pub out : List Backend
  pub seen_paths : List Bytes
  pub seen_quarters : List Quarter

unfoldable pub seen_path : Bytes → List Bytes → Bool
seen_path p [] = false
seen_path p (x ∷ xs) = bytes_eq p x || seen_path p xs

unfoldable pub seen_quarter : Quarter → List Quarter → Bool
unfolding quarter_eq
seen_quarter q [] = false
seen_quarter q (x ∷ xs) = quarter_eq q x || seen_quarter q xs

-- The part of `addCandidate` behind a tag that parses.
add_sibling : Host → Bytes → Option Quarter → Found → Found
add_sibling host abs none s = s
add_sibling host abs (some q) s =
    if seen_quarter q s.seen_quarters
    then s
    else if not (host.is_executable abs)
    then s
    else record {
      out = s.out ++ record { quarter = q; path = abs; is_self = false } ∷ [];
      seen_paths = abs ∷ s.seen_paths;
      seen_quarters = q ∷ s.seen_quarters;
    }

add_absolute : Host → Option Bytes → Found → Found
unfolding add_sibling seen_path seen_quarter
add_absolute host none s = s
add_absolute host (some abs) s =
    let name = trim_suffix (host.base abs) host.exec_suffix in
    if seen_path abs s.seen_paths
    then s
    else if has_prefix name backend_prefix
    then add_sibling host abs (parse_tag (trim_prefix name backend_prefix)) s
    else s

unfoldable pub add_candidate : Host → Found → Bytes → Found
unfolding add_absolute
add_candidate host s path = add_absolute host (host.abs path) s

-- The loop of `walkBackendDir`, with `addCandidate` for its callback.
walk_entries : Host → Bytes → List DirEntry → Found → Found
walk_entries host dir [] s = s
walk_entries host dir (e ∷ rest) s = walk_entries host dir rest (
    if e.is_dir
    then s
    else if has_prefix e.name (codes "crdb-sql-v")
    then add_candidate host s (host.join dir e.name)
    else s)

walk_backend_dir : Host → Bytes → Option (List DirEntry) → Found → Found
unfolding walk_entries
walk_backend_dir host dir none s = s
walk_backend_dir host dir (some entries) s = walk_entries host dir entries s

walk_dirs : Host → List Bytes → Found → Found
unfolding walk_backend_dir
walk_dirs host [] s = s
walk_dirs host (dir ∷ dirs) s =
    walk_dirs host dirs (walk_backend_dir host dir (host.read_dir dir) s)

-- `selfBackend`, with the quarter that `Built` returned, and the sets that start with it.
self_found : Option Bytes → Option Quarter → Found
self_found none built = record { out = []; seen_paths = []; seen_quarters = [] }
self_found (some path) none = record {
  out = record { quarter = zero_quarter; path = path; is_self = true } ∷ [];
  seen_paths = path ∷ [];
  seen_quarters = [];
}
self_found (some path) (some q) = record {
  out = record { quarter = q; path = path; is_self = true } ∷ [];
  seen_paths = path ∷ [];
  seen_quarters = if is_zero q then [] else q ∷ [];
}

-- `sort.SliceStable` by `quarterLess(out[j], out[i])`: a stable insertion sort, newest first.
unfoldable pub insert_backend : Backend → List Backend → List Backend
insert_backend b [] = b ∷ []
insert_backend b (x ∷ xs) =
    let rest = insert_backend b xs in
    if quarter_less b.quarter x.quarter then x ∷ rest else b ∷ x ∷ xs

unfoldable pub sort_backends : List Backend → List Backend
unfolding insert_backend
sort_backends [] = []
sort_backends (b ∷ bs) = insert_backend b (sort_backends bs)

-- `Discover`.
unfoldable pub discovered : Host → Option Quarter → Found
unfolding walk_dirs self_found
discovered host built = walk_dirs host (search_dirs host) (self_found host.self_path built)

unfoldable pub discover : Host → Option Quarter → List Backend
unfolding discovered sort_backends
discover host built = sort_backends (discovered host built).out
