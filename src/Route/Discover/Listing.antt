-- ===== src/Route/Discover/Listing.antt =====
-- What the discovery lists, and in which order.
use mathlib.Core.List.{Perm}
use mathlib.Core.List.Perm
use sql_ai_tools.Prelude.{
  ◌≡◌, ◌↔◌, refl, inl, inr, true, false, ◌&&◌, List, [], ◌∷◌, arith, Bool-cases,
}
use sql_ai_tools.Prelude.Int.{ℤ, pos, negsuc}
use sql_ai_tools.Route.Quarter.{Quarter, is_zero}
use sql_ai_tools.Route.Discover.{
  Backend, int_eq, int_lt, quarter_eq, quarter_less, insert_backend, sort_backends,
}

pub quarter_eq_iff : (a b : Quarter) → (quarter_eq a b ≡ true) ↔ (a ≡ b)
unfolding quarter_eq
quarter_eq_iff a b =
    (λ h. ground (arith, int_eq-eq a.year b.year, int_eq-eq a.q b.q), λ h. rw h (both b))
  where
    int_eq-eq : (m n : ℤ) → int_eq m n ≡ true → m ≡ n
    int_eq-eq (pos m) (pos n) e = ground arith
    int_eq-eq (negsuc m) (negsuc n) e = ground arith
    int_eq-eq (pos m) (negsuc n) e = cc
    int_eq-eq (negsuc m) (pos n) e = cc

    int_eq-self : (m : ℤ) → int_eq m m ≡ true
    int_eq-self (pos m) = ground arith
    int_eq-self (negsuc m) = ground arith

    both : (c : Quarter) → (int_eq c.year c.year && int_eq c.q c.q) ≡ true
    both c = rw (int_eq-self c.year, int_eq-self c.q) refl

quarter_less_asymm : (a b : Quarter) → quarter_less a b ≡ true → quarter_less b a ≡ false
unfolding quarter_less int_lt int_eq
quarter_less_asymm a b h = ground arith

-- Each entry is followed by none that is newer; a backend of unknown quarter counts as the newest.
abbrev pub NewestFirst : List Backend → Type 0
NewestFirst [] = Unit
NewestFirst (a ∷ []) = Unit
NewestFirst (a ∷ b ∷ rest) = (quarter_less a.quarter b.quarter ≡ false) × NewestFirst (b ∷ rest)

insert_backend-NewestFirst :
    (b : Backend) (xs : List Backend) → NewestFirst xs → NewestFirst (insert_backend b xs)
unfolding insert_backend
insert_backend-NewestFirst b [] h = tt
insert_backend-NewestFirst b (x ∷ []) h = ground (arith, quarter_less_asymm b.quarter x.quarter)
insert_backend-NewestFirst b (x ∷ y ∷ rest) h =
    ground
      (arith, quarter_less_asymm b.quarter x.quarter, insert_backend-NewestFirst b (y ∷ rest) h.1)

insert_backend-perm : (b : Backend) (xs : List Backend) → Perm (insert_backend b xs) (b ∷ xs)
unfolding insert_backend
insert_backend-perm b [] = Perm.refl (b ∷ [])
insert_backend-perm b (x ∷ xs) = elim (Bool-cases (quarter_less b.quarter x.quarter)) [
  | inl e ↦ rw e (Perm.trans (Perm.cons x (insert_backend-perm b xs)) (Perm.swap b x xs))
  | inr e ↦ rw e (Perm.refl (b ∷ x ∷ xs))
]

-- The sort keeps exactly the backends that it is given, and puts them newest first.
sort_backends-sorted :
    (bs : List Backend) → NewestFirst (sort_backends bs) × Perm (sort_backends bs) bs
unfolding sort_backends
sort_backends-sorted [] = (tt, Perm.refl [])
sort_backends-sorted (b ∷ bs) =
    let (sorted, same) = sort_backends-sorted bs in
    (
      insert_backend-NewestFirst b (sort_backends bs) sorted,
      Perm.trans (insert_backend-perm b (sort_backends bs)) (Perm.cons b same),
    )

-- A backend whose quarter is unknown stands in front of all that come behind it in search order.
unknown_leads :
    (b : Backend) (bs : List Backend)
    → is_zero b.quarter ≡ true
    → sort_backends (b ∷ bs) ≡ b ∷ sort_backends bs
unfolding sort_backends
unknown_leads b bs h = in_front (sort_backends bs)
  where
    in_front : (xs : List Backend) → insert_backend b xs ≡ b ∷ xs
    in_front [] = unfold insert_backend in refl
    in_front (x ∷ xs) = unfold insert_backend quarter_less in rw h refl
