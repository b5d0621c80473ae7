-- ===== src/Server/Register/Keys.antt =====
-- The map of services: its keys, what is found, and what a new path does.
use myrpc.Base.{
  Bytes, beq, beq_sound, beq_refl, beq_complete, List, [], ◌∷◌, ◌++◌, none, some, map, ◌≡◌, ◌≢◌,
  refl, ap, All, All-append, Bool-cases, inl, inr,
}
use myrpc.Server.Methods.{NormService}
use myrpc.Server.Register.{Registered, lookup, put}

-- No string stands twice.
abbrev pub Distinct : List Bytes → Type 0
Distinct [] = Unit
Distinct (x ∷ xs) = All (λ y. x ≢ y) xs × Distinct xs

abbrev pub keys : List (Bytes × Registered) → List Bytes
keys services = map (λ e. e.0) services

abbrev pub paths : List NormService → List Bytes
paths services = map (λ s. s.path) services

pub Distinct-append :
    (xs : List Bytes) (x : Bytes) → Distinct xs → All (λ y. y ≢ x) xs → Distinct (xs ++ x ∷ [])
Distinct-append [] x distinct others = (tt, tt)
Distinct-append (y ∷ ys) x (apart, distinct) (other, others) =
    (All-append (λ z. y ≢ z) ys (x ∷ []) apart (other, tt), Distinct-append ys x distinct others)

pub Distinct-others :
    (xs ys : List Bytes) (x : Bytes) → Distinct (xs ++ x ∷ ys) → All (λ y. y ≢ x) xs
Distinct-others [] ys x distinct = tt
Distinct-others (y ∷ xs) ys x (apart, distinct) =
    (apart_from y xs ys x apart, Distinct-others xs ys x distinct)
  where
    apart_from :
        (y : Bytes) (xs ys : List Bytes) (x : Bytes) → All (λ z. y ≢ z) (xs ++ x ∷ ys) → y ≢ x
    apart_from y [] ys x (other, rest) = other
    apart_from y (z ∷ zs) ys x (other, rest) = apart_from y zs ys x rest

-- The map.
pub lookup-absent :
    (path : Bytes) (services : List (Bytes × Registered))
    → lookup path services ≡ none
    → All (λ k. k ≢ path) (keys services)
unfolding lookup
lookup-absent path [] h = tt
lookup-absent path ((k, s) ∷ services) h = elim (Bool-cases (beq k path)) [
  | inl same ↦ cc (rw same at h)
  | inr other ↦
      (λ e. cc (other, beq_complete k path e), lookup-absent path services (rw other at h))
]

pub absent-lookup :
    (path : Bytes) (services : List (Bytes × Registered))
    → All (λ k. k ≢ path) (keys services)
    → lookup path services ≡ none
unfolding lookup
absent-lookup path [] others = refl
absent-lookup path ((k, s) ∷ services) (other, others) = elim (Bool-cases (beq k path)) [
  | inl same ↦ absurd (other (beq_sound k path same))
  | inr differs ↦ rw differs (absent-lookup path services others)
]

pub put-keys :
    (path : Bytes) (s : Registered) (services : List (Bytes × Registered))
    → lookup path services ≡ none
    → keys (put path s services) ≡ keys services ++ path ∷ []
unfolding lookup put
put-keys path s [] h = refl
put-keys path s ((k, s') ∷ services) h = elim (Bool-cases (beq k path)) [
  | inl same ↦ cc (rw same at h)
  | inr other ↦ rw other (ap (◌∷◌ k) (put-keys path s services (rw other at h)))
]

pub lookup-put :
    (path : Bytes) (s : Registered) (services : List (Bytes × Registered))
    → lookup path (put path s services) ≡ some s
unfolding lookup put
lookup-put path s [] = rw (beq_refl path) refl
lookup-put path s ((k, s') ∷ services) = elim (Bool-cases (beq k path)) [
  | inl same ↦ rw (same, beq_refl path) refl
  | inr other ↦ rw (other, other) (lookup-put path s services)
]

pub lookup-put_other :
    (k path : Bytes) (s x : Registered) (services : List (Bytes × Registered))
    → lookup path services ≡ none
    → lookup k services ≡ some x
    → lookup k (put path s services) ≡ some x
unfolding lookup put
lookup-put_other k path s x [] absent found = cc
lookup-put_other k path s x ((k', s') ∷ services) absent found = elim (Bool-cases (beq k' path)) [
  | inl same ↦ cc (rw same at absent)
  | inr other ↦ elim (Bool-cases (beq k' k)) [
    | inl here ↦ rw (other, here) (rw here at found)
    | inr there ↦
        rw (other, there)
          (lookup-put_other k path s x services (rw other at absent) (rw there at found))
  ]
]
