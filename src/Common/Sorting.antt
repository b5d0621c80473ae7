-- ===== src/Common/Sorting.antt =====
-- `sort.Strings`: strings by their bytes, sorted by insertion.
use myrpc.Base.{
  Bytes, List, [], ◌∷◌, Bool, true, false, ltb, ◌==◌, if◌then◌else◌, All, ◌≡◌, refl, arith,
  Bool-cases, inl, inr,
}
use mathlib.Core.List.{Perm}
use mathlib.Core.List.Perm

unfoldable pub is_at_most : Bytes → Bytes → Bool
is_at_most [] _ = true
is_at_most (x ∷ xs) [] = false
is_at_most (x ∷ xs) (y ∷ ys) = if x == y then is_at_most xs ys else ltb x y

unfoldable pub insert_sorted : Bytes → List Bytes → List Bytes
unfolding is_at_most
insert_sorted x [] = x ∷ []
insert_sorted x (y ∷ ys) =
    let rest = insert_sorted x ys in if is_at_most x y then x ∷ y ∷ ys else y ∷ rest

unfoldable pub sort : List Bytes → List Bytes
unfolding insert_sorted
sort [] = []
sort (x ∷ xs) = insert_sorted x (sort xs)

-- Each string is at most all that follow it.
abbrev pub IsSorted : List Bytes → Type 0
IsSorted [] = Unit
IsSorted (x ∷ xs) = All (λ y. is_at_most x y ≡ true) xs × IsSorted xs

is_at_most_trans :
    (x y z : Bytes) → is_at_most x y ≡ true → is_at_most y z ≡ true → is_at_most x z ≡ true
unfolding is_at_most
is_at_most_trans [] y z xy yz = refl
is_at_most_trans (a ∷ x) [] z xy yz = cc
is_at_most_trans (a ∷ x) (b ∷ y) [] xy yz = cc
is_at_most_trans (a ∷ x) (b ∷ y) (c ∷ z) xy yz = ground (arith, is_at_most_trans x y z)

is_at_most_total : (x y : Bytes) → is_at_most x y ≡ false → is_at_most y x ≡ true
unfolding is_at_most
is_at_most_total [] y over = cc
is_at_most_total (a ∷ x) [] over = refl
is_at_most_total (a ∷ x) (b ∷ y) over = ground (arith, is_at_most_total x y)

All_at_most :
    (x y : Bytes) (ys : List Bytes)
    → is_at_most x y ≡ true
    → All (λ z. is_at_most y z ≡ true) ys
    → All (λ z. is_at_most x z ≡ true) ys
All_at_most x y [] xy all = tt
All_at_most x y (z ∷ zs) xy (yz, all) = (is_at_most_trans x y z xy yz, All_at_most x y zs xy all)

insert-All :
    (P : Bytes → Type 0) (x : Bytes) (ys : List Bytes) → P x → All P ys → All P (insert_sorted x ys)
unfolding insert_sorted
insert-All P x [] px all = (px, all)
insert-All P x (y ∷ ys) px (py, all) = elim (Bool-cases (is_at_most x y)) [
  | inl under ↦ rw under (px, (py, all))
  | inr over ↦ rw over (py, insert-All P x ys px all)
]

insert-IsSorted : (x : Bytes) (ys : List Bytes) → IsSorted ys → IsSorted (insert_sorted x ys)
unfolding insert_sorted
insert-IsSorted x [] sorted = (sorted, sorted)
insert-IsSorted x (y ∷ ys) (below, sorted) = elim (Bool-cases (is_at_most x y)) [
  | inl under ↦ rw under ((under, All_at_most x y ys under below), (below, sorted))
  | inr over ↦ rw over (
    insert-All (λ z. is_at_most y z ≡ true) x ys (is_at_most_total x y over) below,
    insert-IsSorted x ys sorted,
  )
]

pub sort-IsSorted : (xs : List Bytes) → IsSorted (sort xs)
unfolding sort
sort-IsSorted [] = tt
sort-IsSorted (x ∷ xs) = insert-IsSorted x (sort xs) (sort-IsSorted xs)

insert-perm : (x : Bytes) (ys : List Bytes) → Perm (insert_sorted x ys) (x ∷ ys)
unfolding insert_sorted
insert-perm x [] = Perm.rfl
insert-perm x (y ∷ ys) = elim (Bool-cases (is_at_most x y)) [
  | inl under ↦ rw under Perm.rfl
  | inr over ↦ rw over (Perm.trans (Perm.cons y (insert-perm x ys)) (Perm.swap x y ys))
]

pub sort-perm : (xs : List Bytes) → Perm (sort xs) xs
unfolding sort
sort-perm [] = Perm.rfl
sort-perm (x ∷ xs) = Perm.trans (insert-perm x (sort xs)) (Perm.cons x (sort-perm xs))
