-- ===== src/Route/Discover/Distinct.antt =====
-- No quarter is listed twice, and every sibling in the list is a valid, executable backend.
use sql_ai_tools.Prelude.{
  ◌≡◌, inl, inr, refl, Bool-cases, codes, if◌then◌else◌, Bool, true, false, List, [], ◌∷◌, ◌++◌,
  Option, none, some, arith, Bytes, All, All-append,
}
use sql_ai_tools.Text.{has_prefix, trim_suffix}
use sql_ai_tools.Route.Built.{backend_prefix}
use sql_ai_tools.Route.Quarter.{Quarter, is_zero}
use sql_ai_tools.Route.Quarter.Validity.{IsValid, parse_tag-IsValid, not_is_zero}
use sql_ai_tools.Route.Discover.{
  Host, Backend, Found, DirEntry, quarter_eq, seen_quarter, seen_path, add_sibling, add_absolute,
  add_candidate, walk_entries, walk_backend_dir, walk_dirs, search_dirs, self_found, discovered,
}
use sql_ai_tools.Route.Discover.Listing.{quarter_eq_iff}

-- No two entries have one quarter.
abbrev pub DistinctQuarters : List Backend → Type 0
DistinctQuarters [] = Unit
DistinctQuarters (b ∷ bs) =
    All (λ c. quarter_eq b.quarter c.quarter ≡ false) bs × DistinctQuarters bs

-- A listed backend that is not the running binary.
abbrev pub IsSibling : Host → Backend → Type 0
IsSibling host b = b.is_self ≡ false → IsValid b.quarter × (host.is_executable b.path ≡ true)

-- The closure's invariant: a quarter that is listed and known is in the set that is asked.
pub record FoundInv (host : Host) (s : Found) : Type 0 where
  pub distinct : DistinctQuarters s.out
  pub recorded :
      All (λ b. is_zero b.quarter ≡ false → seen_quarter b.quarter s.seen_quarters ≡ true) s.out
  pub siblings : All (IsSibling host) s.out

DistinctQuarters-append :
    (bs : List Backend) (n : Backend)
    → DistinctQuarters bs
    → All (λ b. quarter_eq b.quarter n.quarter ≡ false) bs
    → DistinctQuarters (bs ++ n ∷ [])
DistinctQuarters-append [] n d h = (tt, tt)
DistinctQuarters-append (b ∷ bs) n d h = (
  All-append (λ c. quarter_eq b.quarter c.quarter ≡ false) bs (n ∷ []) d.0 (h.0, tt),
  DistinctQuarters-append bs n d.1 h.1,
)

module _ (host : Host) (n : Backend) (seen : List Quarter) where
  apart :
      (bs : List Backend)
      → is_zero n.quarter ≡ false
      → seen_quarter n.quarter seen ≡ false
      → All (λ b. is_zero b.quarter ≡ false → seen_quarter b.quarter seen ≡ true) bs
      → All (λ b. quarter_eq b.quarter n.quarter ≡ false) bs
  apart [] z new h = tt
  apart (b ∷ bs) z new h = (differ b h.0 (quarter_eq b.quarter n.quarter) refl, apart bs z new h.1)
    where
      differ :
          (b : Backend)
          → (is_zero b.quarter ≡ false → seen_quarter b.quarter seen ≡ true)
          → (t : Bool) → quarter_eq b.quarter n.quarter ≡ t
          → quarter_eq b.quarter n.quarter ≡ false
      differ b r false e = e
      differ b r true e =
          let same : b.quarter ≡ n.quarter = (quarter_eq_iff b.quarter n.quarter).0 e in
          absurd (ground (arith, same, r (rw same z)))

  grow :
      (bs : List Backend)
      → All (λ b. is_zero b.quarter ≡ false → seen_quarter b.quarter seen ≡ true) bs
      → All (λ b. is_zero b.quarter ≡ false → seen_quarter b.quarter (n.quarter ∷ seen) ≡ true) bs
  unfolding seen_quarter
  grow [] h = tt
  grow (b ∷ bs) h = (λ z. ground (arith, h.0 z), grow bs h.1)

seen_self : (q : Quarter) (seen : List Quarter) → seen_quarter q (q ∷ seen) ≡ true
unfolding seen_quarter
seen_self q seen = ground (arith, (quarter_eq_iff q q).1 refl)

module _ (host : Host) where
  add_sibling-Inv :
      (abs : Bytes) (parsed : Option Quarter) (s : Found)
      → ((q : Quarter) → parsed ≡ some q → IsValid q)
      → FoundInv host s
      → FoundInv host (add_sibling host abs parsed s)
  unfolding add_sibling
  add_sibling-Inv abs none s v h = h
  add_sibling-Inv abs (some q) s v h = elim (Bool-cases (seen_quarter q s.seen_quarters)) [
    | inl old ↦ rw old h
    | inr new ↦ elim (Bool-cases (host.is_executable abs)) [
      | inr bad ↦ rw (new, bad) h
      | inl runs ↦ rw (new, runs) (listed new runs)
    ]
  ]
    where
      entry : Backend
      entry = record { quarter = q; path = abs; is_self = false }

      valid : IsValid q
      valid = v q refl

      listed :
          seen_quarter q s.seen_quarters ≡ false
          → host.is_executable abs ≡ true
          → FoundInv host (record {
            out = s.out ++ entry ∷ [];
            seen_paths = abs ∷ s.seen_paths;
            seen_quarters = q ∷ s.seen_quarters;
          })
      listed new runs = record {
        distinct =
            DistinctQuarters-append s.out entry h.distinct
              (apart host entry s.seen_quarters s.out (not_is_zero q valid) new h.recorded);
        recorded =
            All-append _ s.out (entry ∷ []) (grow host entry s.seen_quarters s.out h.recorded)
              (λ z. seen_self q s.seen_quarters, tt);
        siblings =
            All-append (IsSibling host) s.out (entry ∷ []) h.siblings (λ z. (valid, runs), tt);
      }

  add_candidate-Inv :
      (s : Found) (path : Bytes) → FoundInv host s → FoundInv host (add_candidate host s path)
  unfolding add_candidate
  add_candidate-Inv s path h = absolute (host.abs path)
    where
      absolute : (o : Option Bytes) → FoundInv host (add_absolute host o s)
      absolute none = unfold add_absolute in h
      absolute (some abs) =
          unfold add_absolute in
          elim (Bool-cases (seen_path abs s.seen_paths)) [
            | inl old ↦ rw old h
            | inr new ↦
                elim (Bool-cases
                  (has_prefix (trim_suffix (host.base abs) host.exec_suffix) backend_prefix)) [
                    | inr other ↦ rw (new, other) h
                    | inl named ↦
                        rw (new, named) (add_sibling-Inv abs _ s (λ q e. parse_tag-IsValid _ q e) h)
                  ]
          ]

  walk_entries-Inv :
      (dir : Bytes) (entries : List DirEntry) (s : Found)
      → FoundInv host s
      → FoundInv host (walk_entries host dir entries s)
  unfolding walk_entries
  walk_entries-Inv dir [] s h = h
  walk_entries-Inv dir (e ∷ rest) s h =
      walk_entries-Inv dir rest _ (one (e.is_dir) (has_prefix e.name (codes "crdb-sql-v")))
    where
      one :
          (a b : Bool)
          → FoundInv host
              (if a then s else if b then add_candidate host s (host.join dir e.name) else s)
      one true b = h
      one false true = add_candidate-Inv s (host.join dir e.name) h
      one false false = h

  walk_dirs-Inv :
      (dirs : List Bytes) (s : Found) → FoundInv host s → FoundInv host (walk_dirs host dirs s)
  unfolding walk_dirs
  walk_dirs-Inv [] s h = h
  walk_dirs-Inv (dir ∷ dirs) s h = walk_dirs-Inv dirs _ (one (host.read_dir dir))
    where
      one : (o : Option (List DirEntry)) → FoundInv host (walk_backend_dir host dir o s)
      one none = unfold walk_backend_dir in h
      one (some entries) = unfold walk_backend_dir in walk_entries-Inv dir entries s h

  self_found-Inv :
      (path : Option Bytes) (built : Option Quarter) → FoundInv host (self_found path built)
  unfolding self_found is_zero
  self_found-Inv none built = record { distinct = tt; recorded = tt; siblings = tt }
  self_found-Inv (some path) none = record {
    distinct = (tt, tt);
    recorded = (λ z. ground arith, tt);
    siblings = (λ z. cc, tt);
  }
  self_found-Inv (some path) (some q) = record {
    distinct = (tt, tt);
    recorded = (λ z. rw z (seen_self q []), tt);
    siblings = (λ z. cc, tt);
  }

  -- What discovery lists before it sorts: no quarter twice, every entry but the running binary a
  -- valid quarter at an executable path, and every known quarter in the set that is asked.
  pub discovered-FoundInv : (built : Option Quarter) → FoundInv host (discovered host built)
  unfolding discovered
  discovered-FoundInv built =
      walk_dirs-Inv (search_dirs host) _ (self_found-Inv host.self_path built)
