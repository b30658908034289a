-- ===== src/Tests/Version.antt =====
-- internal/version and target versions on concrete texts.
use sql_ai_tools.Text.Decimal.{parse_uint32}
use sql_ai_tools.Text.{split, trim_prefix, has_prefix}
use mathlib.Core.List.{Memᴰ}
use sql_ai_tools.Version.Inspect.Complete.{inspect_complete}
use sql_ai_tools.Prelude.{inl, arith, ◌≡◌, refl, List, [], ◌∷◌, some, codes, All}
use sql_ai_tools.Version.Registry.{
  Feature, Registry, built, Status, supports, parse_major_minor, lookup, new_registry,
  compare_major_minor,
}
use sql_ai_tools.Version.Registry.WellFormed.{IsWellFormed, new_registry-IsWellFormed}
use sql_ai_tools.Version.Registry.Ranges.{HasStatus, supports-HasStatus}
use sql_ai_tools.Version.Inspect.{Warning, Ast, create_index, alter_changefeed, inspect}
use sql_ai_tools.Version.Inspect.Uses.{indexed_trigram}
use sql_ai_tools.Version.Inspect.Warned.{DueFromAny, inspect-Due}
use sql_ai_tools.Version.Features.{default_registry, default_features, feature_trigram_index}

-- Two features: one in use since 23.1, one from 24.1 to before 26.1.
abbrev trigram : Feature
trigram = record {
  tag = feature_trigram_index;
  name = codes "trigram indexes";
  introduced = codes "23.1";
  removed = [];
  doc_url = [];
}

abbrev retired : Feature
retired = record {
  tag = codes "retired";
  name = codes "a retired feature";
  introduced = codes "24.1";
  removed = codes "26.1";
  doc_url = [];
}

abbrev features : List Feature
features = trigram ∷ retired ∷ []

abbrev registry : Registry
registry = retired ∷ trigram ∷ []

new_registry-IsWellFormed_example : IsWellFormed registry
unfolding new_registry lookup parse_major_minor split trim_prefix has_prefix parse_uint32
    compare_major_minor
new_registry-IsWellFormed_example = new_registry-IsWellFormed features registry refl

supports-HasStatus_example :
    (s : Status) × ((supports registry (codes "26.1.2") (codes "retired") ≡ some (s, retired))
      × HasStatus (26, 1) retired s)
unfolding new_registry parse_major_minor lookup split trim_prefix has_prefix parse_uint32
    compare_major_minor
supports-HasStatus_example =
    supports-HasStatus features registry (codes "26.1.2") (codes "retired") (26, 1) retired refl
      refl refl

abbrev statements : List Ast
statements = create_index (codes "GIN_trgm_ops" ∷ []) ∷ alter_changefeed ∷ []

inspect-Due_example :
    (ws : List Warning) × ((inspect [] statements (codes "22.2") (some registry) ≡ some ws)
      × All (DueFromAny registry (codes "22.2") (22, 2) statements) ws)
unfolding new_registry parse_major_minor lookup split trim_prefix has_prefix parse_uint32
    compare_major_minor
inspect-Due_example = inspect-Due features [] registry (codes "22.2") (22, 2) statements refl refl

abbrev trigram_warning : Warning
trigram_warning = record {
  feature_tag = feature_trigram_index;
  feature_name = codes "trigram indexes";
  introduced = codes "23.1";
  target = codes "22.2";
  doc_url = [];
}

inspect_complete_example : Memᴰ trigram_warning (trigram_warning ∷ [])
unfolding new_registry parse_major_minor inspect lookup split trim_prefix has_prefix parse_uint32
    compare_major_minor supports
inspect_complete_example =
    inspect_complete features [] registry (codes "22.2") (22, 2) statements (trigram_warning ∷ [])
      (create_index (codes "GIN_trgm_ops" ∷ [])) trigram_warning refl refl refl (Memᴰ.head refl)
      (
        feature_trigram_index,
        (
          indexed_trigram (codes "GIN_trgm_ops" ∷ [])
              (codes "GIN_trgm_ops", (Memᴰ.head refl, inl refl)),
          record {
            feature = trigram;
            found = refl;
            release = (23, 1);
            introduced = refl;
            later = inl (omega arith);
            text = refl;
          },
        ),
      )

-- The seeded registry is built without a panic.
default_registry-built : (r : Registry) × (default_registry ≡ built r)
unfolding default_registry default_features lookup parse_major_minor split trim_prefix has_prefix
    parse_uint32
default_registry-built = (_, refl)
