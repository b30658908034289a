-- ===== src/Version/Inspect/Warned.antt =====
-- Which warnings the inspector gives.
use mathlib.Core.List.{Memᴰ}
use sql_ai_tools.Prelude.{
  ℕ, ◌≡◌, refl, List, [], ◌∷◌, ◌++◌, some, Bytes, All, All-append, inl, inr, Bool-cases,
  Option-cases,
}
use sql_ai_tools.Version.Registry.{
  Feature, Registry, built, Status, unknown, supported, not_yet_introduced, removed_since,
  parse_major_minor, lookup, supports, new_registry,
}
use sql_ai_tools.Version.Registry.WellFormed.{Before, IsWellFormed, new_registry-IsWellFormed}
use sql_ai_tools.Version.Registry.Ranges.{HasStatus, well_formed-HasStatus, unregistered-unknown}
use sql_ai_tools.Version.Inspect.Uses.{Uses, detect_features_sound}
use sql_ai_tools.Version.Inspect.{
  Ast, Warning, build_warning, warning_for, contains, detect_features, inspect_tags, inspect_all,
  inspect, chosen_registry,
}

-- The warning that a tag earns: its feature came in a release after the target.
pub record IsDue (r : Registry) (target : Bytes) (t : ℕ × ℕ) (tag : Bytes) (w : Warning)
    : Type 0 where
  pub feature : Feature
  pub found : lookup r tag ≡ some feature
  pub release : ℕ × ℕ
  pub introduced : parse_major_minor feature.introduced ≡ some release
  pub later : Before t release
  pub text : w ≡ build_warning feature target

-- One of the tags earns the warning.
abbrev pub DueFrom : Registry → Bytes → ℕ × ℕ → List Bytes → Warning → Type 0
DueFrom r target t tags w = (tag : Bytes) × (Memᴰ tag tags × IsDue r target t tag w)

-- A feature that the statement uses earns the warning.
abbrev pub DueFromUse : Registry → Bytes → ℕ × ℕ → Ast → Warning → Type 0
DueFromUse r target t stmt w = (tag : Bytes) × (Uses stmt tag × IsDue r target t tag w)

-- One of the statements uses a feature that earns it.
abbrev pub DueFromAny : Registry → Bytes → ℕ × ℕ → List Ast → Warning → Type 0
DueFromAny r target t stmts w = (stmt : Ast) × (Memᴰ stmt stmts × DueFromUse r target t stmt w)

All-map :
    {A : Type 0} {P Q : A → Type 0} → ((a : A) → P a → Q a) → (xs : List A) → All P xs → All Q xs
All-map f [] h = tt
All-map f (x ∷ xs) h = (f x h.0, All-map f xs h.1)

module _ (r : Registry) (target : Bytes) (t : ℕ × ℕ) (wf : IsWellFormed r)
    (read : parse_major_minor target ≡ some t) where
  warning_for-IsDue :
      (tag : Bytes) (f : Feature) (s : Status)
      → lookup r tag ≡ some f
      → HasStatus t f s
      → All (IsDue r target t tag) (warning_for target (s, f))
  unfolding warning_for
  warning_for-IsDue tag f unknown e h = tt
  warning_for-IsDue tag f supported e h = tt
  warning_for-IsDue tag f removed_since e h = tt
  warning_for-IsDue tag f not_yet_introduced e (v, (came, after)) = (
    record { feature = f; found = e; release = v; introduced = came; later = after; text = refl },
    tt,
  )

  -- `Supports` answers for every tag, and the answer warns where a warning is due.
  pub answer :
      (tag : Bytes)
      → (s : Status × Feature) × ((supports r target tag ≡ some s)
          × All (IsDue r target t tag) (warning_for target s))
  unfolding warning_for
  answer tag = elim (Option-cases (lookup r tag)) [
    | inl e ↦ (_, (unregistered-unknown r target tag e, tt))
    | inr e ↦
        let (s, (said, holds)) = well_formed-HasStatus r target tag t e.0 wf read e.1 in
        ((s, e.0), (said, warning_for-IsDue tag e.0 s e.1 holds))
  ]

  pub inspect_tags-Due :
      (seen tags : List Bytes)
      → (ws : List Warning) × ((inspect_tags r target seen tags ≡ some ws)
          × All (DueFrom r target t tags) ws)
  unfolding inspect_tags
  inspect_tags-Due seen [] = ([], (refl, tt))
  inspect_tags-Due seen (tag ∷ tags) = elim (Bool-cases (contains seen tag)) [
    | inl e ↦
        let (ws, (said, due)) = inspect_tags-Due seen tags in
        (ws, (rw (e, said), All-map (λ w d. (d.0, (Memᴰ.tail d.1.0, d.1.1))) ws due))
    | inr e ↦
        let (ws, (said, due)) = inspect_tags-Due (tag ∷ seen) tags in
        let (s, (status, now)) = answer tag in
        (
          warning_for target s ++ ws,
          (
            rw (e, status, said),
            All-append _ (warning_for target s) ws
                (All-map (λ w d. (tag, (Memᴰ.head refl, d))) (warning_for target s) now)
                (All-map (λ w d. (d.0, (Memᴰ.tail d.1.0, d.1.1))) ws due),
          ),
        )
  ]

  pub inspect_all-Due :
      (stmts : List Ast)
      → (ws : List Warning) × ((inspect_all r target stmts ≡ some ws)
          × All (DueFromAny r target t stmts) ws)
  unfolding inspect_all
  inspect_all-Due [] = ([], (refl, tt))
  inspect_all-Due (stmt ∷ stmts) =
      let (now, (said, due)) = inspect_tags-Due [] (detect_features stmt) in
      let (ws, (said', due')) = inspect_all-Due stmts in
      (
        now ++ ws,
        (
          rw (said, said'),
          All-append _ now ws
              (All-map
                (λ w d.
                  (stmt, (Memᴰ.head refl, (d.0, (detect_features_sound stmt d.0 d.1.0, d.1.1)))))
                now due)
              (All-map (λ w d. (d.0, (Memᴰ.tail d.1.0, d.1.1))) ws due'),
        ),
      )

-- Under a registry that `NewRegistry` returned and a readable target, the inspector returns, and each
-- of its warnings is due: some statement uses a registered feature that was introduced in a release
-- after the target, and the warning is that feature's.
pub inspect-Due :
    (features : List Feature) (default r : Registry) (target : Bytes) (t : ℕ × ℕ) (stmts : List Ast)
    → new_registry features ≡ built r
    → parse_major_minor target ≡ some t
    → (ws : List Warning) × ((inspect default stmts target (some r) ≡ some ws)
        × All (DueFromAny r target t stmts) ws)
unfolding inspect chosen_registry
inspect-Due features default r [] t stmts made read = ([], (refl, tt))
inspect-Due features default r (c ∷ target) t stmts made read =
    inspect_all-Due r (c ∷ target) t (new_registry-IsWellFormed features r made) read stmts
