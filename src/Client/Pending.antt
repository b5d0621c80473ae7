-- ===== src/Client/Pending.antt =====
-- The map `pending map[uint64]*Call` of an invoker, from sequence numbers to calls.
pub use myrpc.Base.{count, count-append}
use myrpc.Base.{
  ℕ, suc, ◌+◌, ◌<◌, List, [], ◌∷◌, Option, none, some, ◌==◌, if◌then◌else◌, ◌≡◌, refl, arith, All,
}

-- `pending[k]`; a missing key reads as nil.
abbrev pub lookup : ℕ → List (ℕ × ℕ) → Option ℕ
lookup k [] = none
lookup k ((j, c) ∷ m) = if j == k then some c else lookup k m

-- `delete(pending, k)`.
abbrev pub erase : ℕ → List (ℕ × ℕ) → List (ℕ × ℕ)
erase k [] = []
erase k ((j, c) ∷ m) = if j == k then m else (j, c) ∷ erase k m

-- `pending[k] = c`.
abbrev pub insert : ℕ → ℕ → List (ℕ × ℕ) → List (ℕ × ℕ)
insert k c [] = (k, c) ∷ []
insert k c ((j, d) ∷ m) = if j == k then (k, c) ∷ m else (j, d) ∷ insert k c m

-- The calls of the map, as a range loop visits them.
abbrev pub values : List (ℕ × ℕ) → List ℕ
values [] = []
values ((_, c) ∷ m) = c ∷ values m

-- All keys lie below `n`.
abbrev pub Below : ℕ → List (ℕ × ℕ) → Type 0
Below n = All (λ e. e.0 < n)

pub Below-suc : (n : ℕ) (m : List (ℕ × ℕ)) → Below n m → Below (suc n) m
Below-suc n [] h = tt
Below-suc n (e ∷ m) h = (omega arith, Below-suc n m h.1)

pub lookup-Below : (n : ℕ) (m : List (ℕ × ℕ)) → Below n m → lookup n m ≡ none
lookup-Below n [] h = refl
lookup-Below n (e ∷ m) h = ground (arith, lookup-Below n m h.1)

pub Below-erase : (n k : ℕ) (m : List (ℕ × ℕ)) → Below n m → Below n (erase k m)
Below-erase n k [] h = tt
Below-erase n k (e ∷ m) h = ground (arith, Below-erase n k m h.1)

pub Below-insert : (n c : ℕ) (m : List (ℕ × ℕ)) → Below n m → Below (suc n) (insert n c m)
Below-insert n c [] h = (omega arith, tt)
Below-insert n c (e ∷ m) h = ground (arith, Below-insert n c m h.1, Below-suc n m h.1)

-- A new key adds its call once.
pub count-insert :
    (a k c : ℕ) (m : List (ℕ × ℕ))
    → lookup k m ≡ none
    → count a (values (insert k c m)) ≡ count a (values m) + count a (c ∷ [])
count-insert a k c [] h = ground arith
count-insert a k c (e ∷ m) h = ground (arith, count-insert a k c m)

-- Taking a key out takes its call out once.
pub count-erase :
    (a k c : ℕ) (m : List (ℕ × ℕ))
    → lookup k m ≡ some c
    → count a (values (erase k m)) + count a (c ∷ []) ≡ count a (values m)
count-erase a k c [] h = cc
count-erase a k c (e ∷ m) h = ground (arith, count-erase a k c m)

pub erase-none : (k : ℕ) (m : List (ℕ × ℕ)) → lookup k m ≡ none → erase k m ≡ m
erase-none k [] h = refl
erase-none k (e ∷ m) h = ground (arith, erase-none k m)
