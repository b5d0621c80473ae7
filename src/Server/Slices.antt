-- ===== src/Server/Slices.antt =====
-- Go's slices of strings, which server/uri.go and the groups of server/server.go share and overwrite:
-- an array in a heap with a length, whose capacity is the length of the array.
pub mod Laws
use myrpc.Base.{
  ℕ, zero, suc, ◌+◌, ◌≤◌, ◌<◌, Bytes, List, [], ◌∷◌, ◌++◌, length, take, drop, map, leb, update,
  if◌then◌else◌,
}

pub record Slice : Type 0 where
  pub array : ℕ
  pub len : ℕ

-- The array 0 is that of a nil slice.
pub record Heap : Type 0 where
  pub arrays : ℕ → List Bytes
  pub next : ℕ

abbrev pub nil : Slice
nil = record { array = 0; len = 0 }

abbrev pub new_heap : Heap
new_heap = record { arrays = λ _. []; next = 1 }

abbrev pub elements : Heap → Slice → List Bytes
elements h s = take s.len (h.arrays s.array)

abbrev pub capacity : Heap → Slice → ℕ
capacity h s = length (h.arrays s.array)

abbrev pub IsWithin : Heap → Slice → Type 0
IsWithin h s = (s.len ≤ capacity h s) × (s.array < h.next)

abbrev pub put_array : ℕ → List Bytes → Heap → Heap
put_array i xs h = record h { arrays = update h.arrays i xs }

-- A new array, with spare places behind the elements.
abbrev pub allocate : List Bytes → List Bytes → Heap → Slice × Heap
allocate xs spare h = (
  record { array = h.next; len = length xs },
  record (put_array h.next (xs ++ spare) h) { next = suc h.next },
)

-- Zero values.
abbrev pub zeros : ℕ → List Bytes
zeros zero = []
zeros (suc k) = [] ∷ zeros k

-- `append(s, xs...)`; `grow` gives the spare places of a new array, by the old capacity and the new
-- length.
unfoldable pub append : (ℕ → ℕ → ℕ) → Slice → List Bytes → Heap → Slice × Heap
append grow s xs h =
    let n = s.len + length xs in
    let old = h.arrays s.array in
    if leb n (length old)
    then (record s { len = n }, put_array s.array (take s.len old ++ xs ++ drop n old) h)
    else allocate (take s.len old ++ xs) (zeros (grow (length old) n)) h

-- Every element is replaced in place.
unfoldable pub map_in_place : (Bytes → Bytes) → Slice → Heap → Heap
map_in_place f s h =
    let old = h.arrays s.array in put_array s.array (map f (take s.len old) ++ drop s.len old) h
