-- ===== src/Version/Inspect/Complete.antt =====
-- No warning that is due is missing.
use mathlib.Core.List.{Memᴰ}
use mathlib.Core.List.Memᴰ
use sql_ai_tools.Prelude.{
  ℕ, ◌≡◌, refl, true, false, List, [], ◌∷◌, ◌++◌, some, Bytes, arith, inl, inr, Bool-cases,
}
use sql_ai_tools.Text.{bytes_eq, split, split_at, trim_prefix, has_prefix}
use sql_ai_tools.Text.Laws.{bytes_eq_iff}
use sql_ai_tools.Version.Registry.{
  Feature, Registry, built, Status, unknown, supported, not_yet_introduced, removed_since, is_empty,
  parse_major_minor, major_minor_of, supports, new_registry,
}
use sql_ai_tools.Version.Registry.WellFormed.{
  Before, IsConfigured, IsWellFormed, new_registry-IsWellFormed,
}
use sql_ai_tools.Version.Registry.Ranges.{
  Reached, HasStatus, lookup-IsConfigured, well_formed-HasStatus,
}
use sql_ai_tools.Version.Inspect.Uses.{detect_features_complete}
use sql_ai_tools.Version.Inspect.{
  Ast, Warning, warning_for, contains, detect_features, inspect_tags, inspect_all, inspect,
  chosen_registry,
}
use sql_ai_tools.Version.Inspect.Warned.{
  IsDue, DueFrom, DueFromUse, answer, inspect_tags-Due, inspect_all-Due,
}

-- The empty text is no version.
empty_unread : (s : Bytes) (v : ℕ × ℕ) → is_empty s ≡ true → parse_major_minor s ≡ some v → ⊥
unfolding is_empty parse_major_minor major_minor_of split split_at trim_prefix has_prefix
empty_unread [] v e h = ground (arith, h)
empty_unread (c ∷ s) v e h = ground (arith, e)

same_version :
    (s : Bytes) (v w : ℕ × ℕ) → parse_major_minor s ≡ some v → parse_major_minor s ≡ some w → v ≡ w
same_version s v w e h = ground (arith, e, h)

not_both : (t v : ℕ × ℕ) → Before t v → Reached t v → ⊥
not_both t v b c = omega (arith, b, c)

Before-trans : (a b c : ℕ × ℕ) → Before a b → Before b c → Before a c
Before-trans a b c h k = ground (arith, h, k)

module _ (t v : ℕ × ℕ) (f : Feature) (good : IsConfigured f)
    (came : parse_major_minor f.introduced ≡ some v) (after : Before t v) where
  not_removed : (w : ℕ × ℕ) → parse_major_minor f.removed ≡ some w → Reached t w → ⊥
  not_removed w e reached = elim good.ended [
    | inl none_set ↦ empty_unread f.removed w none_set e
    | inr (v', w', (came', e', order)) ↦
        not_both t w
          (Before-trans t v w after (
            rw (same_version f.introduced v v' came came', same_version f.removed w w' e e') order))
          reached
  ]

  -- A feature from a release after the target has no other status.
  only_early : (s : Status) → HasStatus t f s → s ≡ not_yet_introduced
  only_early unknown h = absurd h
  only_early not_yet_introduced h = refl
  only_early removed_since (w, (e, reached)) = absurd (not_removed w e reached)
  only_early supported (here, still) = elim here [
    | inl e ↦ absurd (empty_unread f.introduced v e came)
    | inr (v', (e, reached)) ↦
        absurd (not_both t v after (rw (same_version f.introduced v v' came e) reached))
  ]

module _ (r : Registry) (target : Bytes) (t : ℕ × ℕ) (wf : IsWellFormed r)
    (read : parse_major_minor target ≡ some t) where
  -- The answer of `Supports` for a tag that earns a warning gives the warning.
  due_given :
      (tag : Bytes) (w : Warning) (s : Status × Feature)
      → IsDue r target t tag w
      → supports r target tag ≡ some s
      → Memᴰ w (warning_for target s)
  unfolding warning_for
  due_given tag w s d said =
      let (early, (says, holds)) = well_formed-HasStatus r target tag t d.feature wf read d.found in
      let e : s ≡ (not_yet_introduced, d.feature) = ground (
        arith,
        said,
        says,
        only_early t d.release d.feature (lookup-IsConfigured r tag d.feature wf d.found)
            d.introduced d.later early holds,
      ) in
      rw (e, d.text) (Memᴰ.head refl)

  -- The warning for the tag in front is among the first, and one for a later tag among the rest.
  first_or_later :
      (first tag : Bytes) (tags seen : List Bytes) (later : List Warning) (w : Warning)
      (s : Status × Feature)
      → supports r target first ≡ some s
      → IsDue r target t tag w
      → contains seen tag ≡ false
      → Memᴰ tag (first ∷ tags)
      → (Memᴰ tag tags → contains (first ∷ seen) tag ≡ false → Memᴰ w later)
      → Memᴰ w (warning_for target s ++ later)
  unfolding contains
  first_or_later first tag tags seen later w s said d new (Memᴰ.head e) ih =
      Memᴰ.append_left later (due_given first w s (rw (← e) d) said)
  first_or_later first tag tags seen later w s said d new (Memᴰ.tail m) ih =
      elim (Bool-cases (bytes_eq first tag)) [
        | inl same ↦
            Memᴰ.append_left later
              (due_given first w s (rw ((bytes_eq_iff first tag).0 same) d) said)
        | inr differ ↦ Memᴰ.append_right (warning_for target s) (ih m (rw (differ, new) refl))
      ]

  tags_complete :
      (seen tags : List Bytes) (ws : List Warning) (tag : Bytes) (w : Warning)
      → inspect_tags r target seen tags ≡ some ws
      → Memᴰ tag tags
      → contains seen tag ≡ false
      → IsDue r target t tag w
      → Memᴰ w ws
  unfolding inspect_tags
  tags_complete seen [] ws tag w said m new d = elim m [ ]
  tags_complete seen (first ∷ tags) ws tag w said m new d =
      elim (Bool-cases (contains seen first)) [
        | inl old ↦
            skipped old m
              (λ n. tags_complete seen tags ws tag w (ground (arith, old, said)) n new d)
        | inr fresh ↦
            let (later, (rest, _)) = inspect_tags-Due r target t wf read (first ∷ seen) tags in
            let (s, (status, _)) = answer r target t wf read first in
            let e : ws ≡ warning_for target s ++ later =
              ground (arith, fresh, said, status, rest) in
            rw e (
              first_or_later first tag tags seen later w s status d new m
                (λ n apart. tags_complete (first ∷ seen) tags later tag w rest n apart d))
      ]
    where
      skipped :
          contains seen first ≡ true
          → Memᴰ tag (first ∷ tags)
          → (Memᴰ tag tags → Memᴰ w ws)
          → Memᴰ w ws
      skipped old (Memᴰ.head e) ih =
          let n : contains seen first ≡ false = rw (← e) new in absurd (ground (arith, old, n))
      skipped old (Memᴰ.tail n) ih = ih n

  all_complete :
      (stmts : List Ast) (ws : List Warning) (stmt : Ast) (w : Warning)
      → inspect_all r target stmts ≡ some ws
      → Memᴰ stmt stmts
      → DueFrom r target t (detect_features stmt) w
      → Memᴰ w ws
  unfolding inspect_all
  all_complete [] ws stmt w said m d = elim m [ ]
  all_complete (first ∷ stmts) ws stmt w said m (tag, (used, d)) =
      let (now, (here, _)) = inspect_tags-Due r target t wf read [] (detect_features first) in
      let (later, (rest, _)) = inspect_all-Due r target t wf read stmts in
      let e : ws ≡ now ++ later = ground (arith, said, here, rest) in
      rw e (either now later here m (λ n. all_complete stmts later stmt w rest n (tag, (used, d))))
    where
      either :
          (now later : List Warning)
          → inspect_tags r target [] (detect_features first) ≡ some now
          → Memᴰ stmt (first ∷ stmts)
          → (Memᴰ stmt stmts → Memᴰ w later)
          → Memᴰ w (now ++ later)
      either now later here (Memᴰ.head e) ih = Memᴰ.append_left later (
          tags_complete [] (detect_features first) now tag w here (rw (← e) used)
            (unfold contains in refl) d)
      either now later here (Memᴰ.tail n) ih = Memᴰ.append_right now (ih n)

-- The inspector drops no warning: where it returns, under a registry that `NewRegistry` returned, a
-- warning that a feature earns which some statement uses is in the list.
pub inspect_complete :
    (features : List Feature) (default r : Registry) (target : Bytes) (t : ℕ × ℕ) (stmts : List Ast)
    (ws : List Warning) (stmt : Ast) (w : Warning)
    → new_registry features ≡ built r
    → parse_major_minor target ≡ some t
    → inspect default stmts target (some r) ≡ some ws
    → Memᴰ stmt stmts
    → DueFromUse r target t stmt w
    → Memᴰ w ws
unfolding inspect chosen_registry
inspect_complete features default r [] t stmts ws stmt w made read said m d =
    absurd (empty_unread [] t (unfold is_empty in refl) read)
inspect_complete features default r (c ∷ target) t stmts ws stmt w made read said m d =
    all_complete r (c ∷ target) t (new_registry-IsWellFormed features r made) read stmts ws stmt w
      said m (d.0, (detect_features_complete stmt d.0 d.1.0, d.1.1))
