-- ===== src/Version/Inspect/Uses.antt =====
-- Which of the features of detectFeatures, internal/version/check.go, a statement uses.
use mathlib.Core.List.{Memᴰ}
use mathlib.Core.List.Memᴰ
use sql_ai_tools.Prelude.{
  ◌≡◌, ◌⊎◌, ◌↔◌, refl, Bool, true, false, ◌||◌, List, [], ◌∷◌, Option, none, some, Bytes, arith,
  inl, inr, codes,
}
use sql_ai_tools.Text.{bytes_eq}
use sql_ai_tools.Text.Laws.{bytes_eq_iff}
use sql_ai_tools.Suggest.{to_lower}
use sql_ai_tools.Version.Features.{
  feature_plpgsql_function_body, feature_trigram_index, feature_regional_by_row,
  feature_alter_changefeed,
}
use sql_ai_tools.Version.Inspect.{
  RoutineOption, language, other_option, LocalityLevel, global_level, table_level, row_level,
  IndexElems, TableDef, index_def, unique_def, other_def, AlterCmd, add_unique,
  add_other_constraint, other_cmd, Ast, create_routine, create_table, alter_table_locality,
  alter_table, create_index, alter_changefeed, other_statement, has_plpgsql_body,
  is_regional_by_row, elems_have_trigram_op_class, defs_have_trigram_index, when_found, cmd_tags,
  detect_features,
}

-- An operator class for trigrams, in letters of any case.
abbrev pub IsTrigram : Bytes → Type 0
IsTrigram e = (to_lower e ≡ codes "gin_trgm_ops") ⊎ (to_lower e ≡ codes "gist_trgm_ops")

abbrev pub HasTrigram : IndexElems → Type 0
HasTrigram elems = (e : Bytes) × (Memᴰ e elems × IsTrigram e)

-- A definition of a table that makes a trigram index.
abbrev pub MakesTrigram : TableDef → Type 0
MakesTrigram (index_def elems) = HasTrigram elems
MakesTrigram (unique_def elems) = HasTrigram elems
MakesTrigram other_def = ⊥

-- The statement, and the tag of a feature that it uses.
pub data Uses : Ast → Bytes → Type 0 where
  plpgsql_body :
      (options : List RoutineOption)
      → Memᴰ (language true) options
      → Uses (create_routine options) feature_plpgsql_function_body
  made_by_row :
      (defs : List TableDef) → Uses (create_table (some row_level) defs) feature_regional_by_row
  made_trigram :
      (locality : Option LocalityLevel) (defs : List TableDef) (def : TableDef)
      → Memᴰ def defs
      → MakesTrigram def
      → Uses (create_table locality defs) feature_trigram_index
  moved_by_row : Uses (alter_table_locality (some row_level)) feature_regional_by_row
  added_trigram :
      (cmds : List AlterCmd) (elems : IndexElems)
      → Memᴰ (add_unique elems) cmds
      → HasTrigram elems
      → Uses (alter_table cmds) feature_trigram_index
  indexed_trigram :
      (elems : IndexElems) → HasTrigram elems → Uses (create_index elems) feature_trigram_index
  changefeed : Uses alter_changefeed feature_alter_changefeed

-- A test on a list that one of its members passes.
module _ {A : Type 0} (P : A → Type 0) where
  Some : List A → Type 0
  Some xs = (x : A) × (Memᴰ x xs × P x)

  Some-first :
      (x : A) (xs : List A) (b c : Bool)
      → (b ≡ true) ↔ P x
      → (c ≡ true) ↔ Some xs
      → ((b || c) ≡ true) ↔ Some (x ∷ xs)
  unfolding Some
  Some-first x xs true c h k = (λ e. (x, (Memᴰ.head refl, h.0 refl)), λ s. refl)
  Some-first x xs false c h k = (
    λ e. let (y, (m, p)) = k.0 e in (y, (Memᴰ.tail m, p)),
    λ (y, (m, p)). elim (Memᴰ.cases_cons m) [
      | inl e ↦ absurd (ground (arith, h.1 (rw (← e) p)))
      | inr n ↦ k.1 (y, (n, p))
    ],
  )

  Some-none : (false ≡ true) ↔ Some []
  unfolding Some
  Some-none = (λ e. cc, λ (y, (m, p)). absurd (Memᴰ.not-nil m))

is_gin : Bytes → Bool
is_gin e = bytes_eq (to_lower e) (codes "gin_trgm_ops")

is_gist : Bytes → Bool
is_gist e = bytes_eq (to_lower e) (codes "gist_trgm_ops")

IsTrigram-iff : (e : Bytes) → ((is_gin e || is_gist e) ≡ true) ↔ IsTrigram e
unfolding is_gin is_gist
IsTrigram-iff e = (λ h. sound (is_gin e) refl h, complete)
  where
    sound : (b : Bool) → is_gin e ≡ b → (is_gin e || is_gist e) ≡ true → IsTrigram e
    sound true g h = inl ((bytes_eq_iff (to_lower e) (codes "gin_trgm_ops")).0 g)
    sound false g h =
        inr ((bytes_eq_iff (to_lower e) (codes "gist_trgm_ops")).0 (ground (arith, g, h)))

    complete : IsTrigram e → (is_gin e || is_gist e) ≡ true
    complete (inl h) = rw ((bytes_eq_iff (to_lower e) (codes "gin_trgm_ops")).1 h) refl
    complete (inr h) =
        let g = (bytes_eq_iff (to_lower e) (codes "gist_trgm_ops")).1 h in ground (arith, g)

elems-first :
    (e : Bytes) (elems : IndexElems)
    → elems_have_trigram_op_class (e ∷ elems)
      ≡ ((is_gin e || is_gist e) || elems_have_trigram_op_class elems)
unfolding elems_have_trigram_op_class is_gin is_gist
elems-first e elems = ground arith

elems_iff : (elems : IndexElems) → (elems_have_trigram_op_class elems ≡ true) ↔ HasTrigram elems
unfolding elems_have_trigram_op_class Some
elems_iff [] = Some-none IsTrigram
elems_iff (e ∷ elems) =
    rw (elems-first e elems) (Some-first IsTrigram e elems _ _ (IsTrigram-iff e) (elems_iff elems))

defs_iff : (defs : List TableDef) → (defs_have_trigram_index defs ≡ true) ↔ Some MakesTrigram defs
unfolding defs_have_trigram_index
defs_iff [] = Some-none MakesTrigram
defs_iff (index_def elems ∷ defs) =
    Some-first MakesTrigram (index_def elems) defs _ _ (elems_iff elems) (defs_iff defs)
defs_iff (unique_def elems ∷ defs) =
    Some-first MakesTrigram (unique_def elems) defs _ _ (elems_iff elems) (defs_iff defs)
defs_iff (other_def ∷ defs) =
    Some-first MakesTrigram other_def defs false _ (λ h. absurd cc, λ h. absurd h) (defs_iff defs)

IsPlpgsql : RoutineOption → Type 0
IsPlpgsql o = o ≡ language true

options_iff :
    (options : List RoutineOption) → (has_plpgsql_body options ≡ true) ↔ Some IsPlpgsql options
unfolding has_plpgsql_body IsPlpgsql
options_iff [] = Some-none IsPlpgsql
options_iff (language true ∷ options) =
    Some-first IsPlpgsql (language true) options true _ (λ h. refl, λ h. refl) (options_iff options)
options_iff (language false ∷ options) =
    Some-first IsPlpgsql (language false) options false _ (λ h. absurd cc, λ h. absurd cc)
      (options_iff options)
options_iff (other_option ∷ options) =
    Some-first IsPlpgsql other_option options false _ (λ h. absurd cc, λ h. absurd cc)
      (options_iff options)

by_row_iff : (l : Option LocalityLevel) → (is_regional_by_row l ≡ true) ↔ (l ≡ some row_level)
unfolding is_regional_by_row
by_row_iff none = (λ h. absurd cc, λ h. absurd cc)
by_row_iff (some row_level) = (λ h. refl, λ h. refl)
by_row_iff (some global_level) = (λ h. absurd cc, λ h. absurd cc)
by_row_iff (some table_level) = (λ h. absurd cc, λ h. absurd cc)

when_found-tag : (b : Bool) (tag t : Bytes) → Memᴰ t (when_found b tag) → (b ≡ true) × (t ≡ tag)
unfolding when_found
when_found-tag true tag t m = elim (Memᴰ.cases_cons m) [
  | inl e ↦ (refl, e)
  | inr n ↦ absurd (Memᴰ.not-nil n)
]
when_found-tag false tag t m = absurd (Memᴰ.not-nil m)

tag-when_found : (b : Bool) (tag : Bytes) → b ≡ true → Memᴰ tag (when_found b tag)
unfolding when_found
tag-when_found true tag h = Memᴰ.head refl
tag-when_found false tag h = absurd cc

cmds_sound :
    (cmds : List AlterCmd) (tag : Bytes)
    → Memᴰ tag (cmd_tags cmds)
    → (tag ≡ feature_trigram_index)
      × (elems : IndexElems) × (Memᴰ (add_unique elems) cmds × HasTrigram elems)
unfolding cmd_tags
cmds_sound [] tag m = absurd (Memᴰ.not-nil m)
cmds_sound (add_unique elems ∷ cmds) tag m =
    elim (Memᴰ.append_cases (when_found (elems_have_trigram_op_class elems) feature_trigram_index)
      m) [
        | inl n ↦
            let (b, e) =
              when_found-tag (elems_have_trigram_op_class elems) feature_trigram_index tag n in
            (e, elems, (Memᴰ.head refl, (elems_iff elems).0 b))
        | inr n ↦ let (e, x, (k, h)) = cmds_sound cmds tag n in (e, x, (Memᴰ.tail k, h))
      ]
cmds_sound (add_other_constraint ∷ cmds) tag m =
    let (e, x, (k, h)) = cmds_sound cmds tag m in (e, x, (Memᴰ.tail k, h))
cmds_sound (other_cmd ∷ cmds) tag m =
    let (e, x, (k, h)) = cmds_sound cmds tag m in (e, x, (Memᴰ.tail k, h))

cmds_complete :
    (cmds : List AlterCmd) (elems : IndexElems)
    → Memᴰ (add_unique elems) cmds
    → HasTrigram elems
    → Memᴰ feature_trigram_index (cmd_tags cmds)
unfolding cmd_tags
cmds_complete [] elems m h = absurd (Memᴰ.not-nil m)
cmds_complete (add_unique first ∷ cmds) elems m h = elim (Memᴰ.cases_cons m) [
  | inl e ↦
      let same : elems ≡ first = ground (arith, e) in
      Memᴰ.append_left (cmd_tags cmds) (
        tag-when_found (elems_have_trigram_op_class first) feature_trigram_index
          ((elems_iff first).1 (rw (← same) h)))
  | inr n ↦
      Memᴰ.append_right (when_found (elems_have_trigram_op_class first) feature_trigram_index)
        (cmds_complete cmds elems n h)
]
cmds_complete (add_other_constraint ∷ cmds) elems m h = elim (Memᴰ.cases_cons m) [
  | inl e ↦ absurd cc
  | inr n ↦ cmds_complete cmds elems n h
]
cmds_complete (other_cmd ∷ cmds) elems m h = elim (Memᴰ.cases_cons m) [
  | inl e ↦ absurd cc
  | inr n ↦ cmds_complete cmds elems n h
]

pub detect_features_sound :
    (stmt : Ast) (tag : Bytes) → Memᴰ tag (detect_features stmt) → Uses stmt tag
unfolding detect_features Some IsPlpgsql
detect_features_sound (create_routine options) tag m =
    let (b, e) = when_found-tag (has_plpgsql_body options) feature_plpgsql_function_body tag m in
    let (o, (k, p)) = (options_iff options).0 b in rw e (plpgsql_body options (rw (← p) k))
detect_features_sound (create_table locality defs) tag m =
    elim (Memᴰ.append_cases (when_found (is_regional_by_row locality) feature_regional_by_row) m) [
      | inl n ↦
          let (b, e) = when_found-tag (is_regional_by_row locality) feature_regional_by_row tag n in
          rw (e, (by_row_iff locality).0 b) (made_by_row defs)
      | inr n ↦
          let (b, e) = when_found-tag (defs_have_trigram_index defs) feature_trigram_index tag n in
          let (d, (k, p)) = (defs_iff defs).0 b in rw e (made_trigram locality defs d k p)
    ]
detect_features_sound (alter_table_locality locality) tag m =
    let (b, e) = when_found-tag (is_regional_by_row locality) feature_regional_by_row tag m in
    rw (e, (by_row_iff locality).0 b) moved_by_row
detect_features_sound (alter_table cmds) tag m =
    let (e, x, (k, h)) = cmds_sound cmds tag m in rw e (added_trigram cmds x k h)
detect_features_sound (create_index elems) tag m =
    let (b, e) = when_found-tag (elems_have_trigram_op_class elems) feature_trigram_index tag m in
    rw e (indexed_trigram elems ((elems_iff elems).0 b))
detect_features_sound alter_changefeed tag m = elim (Memᴰ.cases_cons m) [
  | inl e ↦ rw e changefeed
  | inr n ↦ absurd (Memᴰ.not-nil n)
]
detect_features_sound other_statement tag m = absurd (Memᴰ.not-nil m)

pub detect_features_complete :
    (stmt : Ast) (tag : Bytes) → Uses stmt tag → Memᴰ tag (detect_features stmt)
unfolding detect_features Some IsPlpgsql
detect_features_complete _ _ (plpgsql_body options m) =
    tag-when_found (has_plpgsql_body options) feature_plpgsql_function_body
      ((options_iff options).1 (language true, (m, refl)))
detect_features_complete _ _ (made_by_row defs) =
    Memᴰ.append_left (when_found (defs_have_trigram_index defs) feature_trigram_index)
      (tag-when_found true feature_regional_by_row refl)
detect_features_complete _ _ (made_trigram locality defs d m p) =
    Memᴰ.append_right (when_found (is_regional_by_row locality) feature_regional_by_row) (
      tag-when_found (defs_have_trigram_index defs) feature_trigram_index
        ((defs_iff defs).1 (d, (m, p))))
detect_features_complete _ _ moved_by_row = tag-when_found true feature_regional_by_row refl
detect_features_complete _ _ (added_trigram cmds elems m h) = cmds_complete cmds elems m h
detect_features_complete _ _ (indexed_trigram elems h) =
    tag-when_found (elems_have_trigram_op_class elems) feature_trigram_index ((elems_iff elems).1 h)
detect_features_complete _ _ changefeed = Memᴰ.head refl
