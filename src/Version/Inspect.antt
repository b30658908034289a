-- ===== src/Version/Inspect.antt =====
-- internal/version/check.go: the warnings for features that the target version does not have. The
-- statements are the parser's: of a tree, what the detector reads is kept.
pub mod Complete
pub mod Uses
pub mod Warned
use sql_ai_tools.Prelude.{
  Bool, true, false, ◌||◌, ◌&&◌, List, [], ◌∷◌, ◌++◌, Option, none, some, ◌>>=◌, Bytes, codes,
  if◌then◌else◌,
}
use sql_ai_tools.Text.{bytes_eq}
use sql_ai_tools.Suggest.{to_lower}
use sql_ai_tools.Version.Features.{
  feature_plpgsql_function_body, feature_trigram_index, feature_regional_by_row,
  feature_alter_changefeed,
}
use sql_ai_tools.Version.Registry.{Feature, Registry, Status, not_yet_introduced, supports}

-- A routine's option: its language, by whether it is PL/pgSQL, or another option.
pub data RoutineOption : Type 0 where
  language : Bool → RoutineOption
  other_option : RoutineOption

-- `tree.Locality`, by its level.
pub data LocalityLevel : Type 0 where
  global_level : LocalityLevel
  table_level : LocalityLevel
  row_level : LocalityLevel

-- The operator classes of an index's columns.
abbrev pub IndexElems : Type 0
IndexElems = List Bytes

pub data TableDef : Type 0 where
  index_def : IndexElems → TableDef
  unique_def : IndexElems → TableDef
  other_def : TableDef

pub data AlterCmd : Type 0 where
  add_unique : IndexElems → AlterCmd
  add_other_constraint : AlterCmd
  other_cmd : AlterCmd

-- `tree.Statement`, by the cases of `detectFeatures`.
pub data Ast : Type 0 where
  create_routine : List RoutineOption → Ast
  create_table : Option LocalityLevel → List TableDef → Ast
  alter_table_locality : Option LocalityLevel → Ast
  alter_table : List AlterCmd → Ast
  create_index : IndexElems → Ast
  alter_changefeed : Ast
  other_statement : Ast

-- `hasPLpgSQLBody`.
unfoldable pub has_plpgsql_body : List RoutineOption → Bool
has_plpgsql_body [] = false
has_plpgsql_body (language true ∷ options) = true
has_plpgsql_body (language false ∷ options) = has_plpgsql_body options
has_plpgsql_body (other_option ∷ options) = has_plpgsql_body options

-- `isRegionalByRow`.
unfoldable pub is_regional_by_row : Option LocalityLevel → Bool
is_regional_by_row (some row_level) = true
is_regional_by_row _ = false

-- `elemsHaveTrigramOpClass`.
unfoldable pub elems_have_trigram_op_class : IndexElems → Bool
unfolding bytes_eq to_lower
elems_have_trigram_op_class [] = false
elems_have_trigram_op_class (e ∷ elems) =
    let oc = to_lower e in
    bytes_eq oc (codes "gin_trgm_ops")
    || bytes_eq oc (codes "gist_trgm_ops")
    || elems_have_trigram_op_class elems

-- `defsHaveTrigramIndex`.
unfoldable pub defs_have_trigram_index : List TableDef → Bool
unfolding elems_have_trigram_op_class
defs_have_trigram_index [] = false
defs_have_trigram_index (index_def columns ∷ defs) =
    elems_have_trigram_op_class columns || defs_have_trigram_index defs
defs_have_trigram_index (unique_def columns ∷ defs) =
    elems_have_trigram_op_class columns || defs_have_trigram_index defs
defs_have_trigram_index (other_def ∷ defs) = defs_have_trigram_index defs

-- `if found { tags = append(tags, tag) }`.
unfoldable pub when_found : Bool → Bytes → List Bytes
when_found true tag = tag ∷ []
when_found false tag = []

unfoldable pub cmd_tags : List AlterCmd → List Bytes
unfolding when_found elems_have_trigram_op_class
cmd_tags [] = []
cmd_tags (add_unique columns ∷ cmds) =
    when_found (elems_have_trigram_op_class columns) feature_trigram_index ++ cmd_tags cmds
cmd_tags (add_other_constraint ∷ cmds) = cmd_tags cmds
cmd_tags (other_cmd ∷ cmds) = cmd_tags cmds

-- `detectFeatures`.
unfoldable pub detect_features : Ast → List Bytes
unfolding when_found has_plpgsql_body is_regional_by_row defs_have_trigram_index
    elems_have_trigram_op_class cmd_tags
detect_features (create_routine options) =
    when_found (has_plpgsql_body options) feature_plpgsql_function_body
detect_features (create_table locality defs) =
    when_found (is_regional_by_row locality) feature_regional_by_row
    ++ when_found (defs_have_trigram_index defs) feature_trigram_index
detect_features (alter_table_locality locality) =
    when_found (is_regional_by_row locality) feature_regional_by_row
detect_features (alter_table cmds) = cmd_tags cmds
detect_features (create_index columns) =
    when_found (elems_have_trigram_op_class columns) feature_trigram_index
detect_features alter_changefeed = feature_alter_changefeed ∷ []
detect_features other_statement = []

-- `seen[tag]`.
unfoldable pub contains : List Bytes → Bytes → Bool
unfolding bytes_eq
contains [] tag = false
contains (t ∷ seen) tag = bytes_eq t tag || contains seen tag

-- `buildWarning`: the entries of the context, which the message quotes; no documentation, no entry.
pub record Warning : Type 0 where
  pub feature_tag : Bytes
  pub feature_name : Bytes
  pub introduced : Bytes
  pub target : Bytes
  pub doc_url : Bytes

unfoldable pub build_warning : Feature → Bytes → Warning
build_warning feat target = record {
  feature_tag = feat.tag;
  feature_name = feat.name;
  introduced = feat.introduced;
  target = target;
  doc_url = feat.doc_url;
}

-- `status != StatusNotYetIntroduced` passes the tag by.
unfoldable pub warning_for : Bytes → Status × Feature → List Warning
unfolding build_warning
warning_for target (not_yet_introduced, feat) = build_warning feat target ∷ []
warning_for target (_, feat) = []

-- The loop over the tags of one statement; none where `Supports` panics.
unfoldable pub inspect_tags : Registry → Bytes → List Bytes → List Bytes → Option (List Warning)
unfolding contains warning_for
inspect_tags reg target seen [] = some []
inspect_tags reg target seen (tag ∷ tags) =
    let skipped = inspect_tags reg target seen tags in
    let rest = inspect_tags reg target (tag ∷ seen) tags in
    if contains seen tag
    then skipped
    else (supports reg target tag >>= λ s. rest >>= λ later. some (warning_for target s ++ later))

unfoldable pub inspect_all : Registry → Bytes → List Ast → Option (List Warning)
unfolding inspect_tags detect_features
inspect_all reg target [] = some []
inspect_all reg target (stmt ∷ stmts) = do
  warnings ← inspect_tags reg target [] (detect_features stmt)
  later ← inspect_all reg target stmts
  some (warnings ++ later)

-- `if reg == nil { reg = defaultRegistry }`.
unfoldable pub chosen_registry : Registry → Option Registry → Registry
chosen_registry default none = default
chosen_registry default (some reg) = reg

-- `Inspect`, under the package's default registry.
unfoldable pub inspect : Registry → List Ast → Bytes → Option Registry → Option (List Warning)
unfolding inspect_all chosen_registry
inspect default stmts [] reg = some []
inspect default stmts (c ∷ target) reg =
    inspect_all (chosen_registry default reg) (c ∷ target) stmts
