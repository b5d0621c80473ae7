-- ===== src/Server/Slices/Laws.antt =====
-- What slices hold after `append` and after a replacement in place.
use myrpc.Base.{
  ℕ, suc, ◌+◌, ◌≤◌, ◌<◌, Bytes, List, [], ◌∷◌, ◌++◌, length, take, drop, map, leb, update, ◌≡◌, ◌≢◌,
  refl, sym, ap, ◌∙◌, if_pos, if_neg, arith, ℕ_discrete, length-append, length-take, take-append,
  true, false, dec_lt, ◌⊎◌, inl, inr,
}
use myrpc.Server.Slices.{
  Slice, Heap, elements, capacity, IsWithin, put_array, zeros, allocate, append, map_in_place,
}

pub update-same {ℓ} : {A : Type ℓ} (f : ℕ → A) (i : ℕ) (a : A) → update f i a i ≡ a
update-same f i a = if_pos (ℕ_discrete i i) refl a (f i)

pub update-other {ℓ} : {A : Type ℓ} (f : ℕ → A) (i j : ℕ) (a : A) → i ≢ j → update f i a j ≡ f j
update-other f i j a other = if_neg (ℕ_discrete i j) other a (f j)

pub length-map_lem : (f : Bytes → Bytes) (xs : List Bytes) → length (map f xs) ≡ length xs
length-map_lem f [] = refl
length-map_lem f (x ∷ xs) = ap suc (length-map_lem f xs)

-- A prefix of the right length is what `take` gives.
pub take_front : (n : ℕ) (xs ys : List Bytes) → length xs ≡ n → take n (xs ++ ys) ≡ xs
take_front n xs ys e = ap (λ k. take k (xs ++ ys)) (sym e) ∙ take-append xs ys

leb-true : (n m : ℕ) → n ≤ m → leb n m ≡ true
leb-true n m le = ground arith

leb-false : (n m : ℕ) → m < n → leb n m ≡ false
leb-false n m lt = ground arith

-- A slice over the array that was put.
put_lem :
    (i n : ℕ) (front back : List Bytes) (h : Heap)
    → n ≡ length front
    → let h' = put_array i (front ++ back) h in
      let s : Slice = record { array = i; len = n } in (elements h' s ≡ front) × (n ≤ capacity h' s)
put_lem i n front back h e =
    let same = update-same h.arrays i (front ++ back) in
    (
      ap (take n) same ∙ take_front n front back (sym e),
      omega (arith, ap length same, length-append front back, e),
    )

module _ (grow : ℕ → ℕ → ℕ) (s : Slice) (xs : List Bytes) (h : Heap) where
  pub append_fits :
      s.len + length xs ≤ capacity h s
      → append grow s xs h ≡ (
        record s { len = s.len + length xs },
        put_array s.array ((elements h s ++ xs) ++ drop (s.len + length xs) (h.arrays s.array)) h,
      )
  unfolding append
  append_fits room = rw (leb-true (s.len + length xs) (capacity h s) room) refl

  pub append_grows :
      capacity h s < s.len + length xs
      → append grow s xs h
        ≡ allocate (elements h s ++ xs) (zeros (grow (capacity h s) (s.len + length xs))) h
  unfolding append
  append_grows full = rw (leb-false (s.len + length xs) (capacity h s) full) refl

  pub append_lem :
      IsWithin h s
      → let (s', h') = append grow s xs h in (elements h' s' ≡ elements h s ++ xs) × IsWithin h' s'
  append_lem (fits, known) =
      let size =
        length-append (elements h s) xs
        ∙ ap (λ k. k + length xs) (length-take s.len (h.arrays s.array) fits) in
      elim (dec_lt (capacity h s) (s.len + length xs)) [
        | yes full ↦
            let (held, room) =
              put_lem h.next (length (elements h s ++ xs)) (elements h s ++ xs)
                (zeros (grow (capacity h s) (s.len + length xs))) h refl in
            rw (append_grows full) (held, (room, omega arith))
        | no n ↦
            let (held, room) =
              put_lem s.array (s.len + length xs) (elements h s ++ xs)
                (drop (s.len + length xs) (h.arrays s.array)) h (sym size) in
            rw (append_fits (omega arith)) (held, (room, known))
      ]

  -- Where the result stands: in the same array, or in a new one, and then no other array has changed.
  pub append_place :
      let (s', h') = append grow s xs h in
      (((s'.array ≡ s.array) × (s.len ≤ s'.len) × (h'.next ≡ h.next))
        ⊎ ((s'.array ≡ h.next)
            × ((j : ℕ) → h.next ≢ j → h'.arrays j ≡ h.arrays j)
            × (h'.next ≡ suc h.next)))
  append_place = elim (dec_lt (capacity h s) (s.len + length xs)) [
    | yes full ↦ rw (append_grows full) (
        inr (
          refl,
          λ j other.
              update-other h.arrays h.next j
                (elements h s ++ xs ++ zeros (grow (capacity h s) (s.len + length xs))) other,
          refl,
        ))
    | no n ↦ rw (append_fits (omega arith)) (inl (refl, omega arith, refl))
  ]

module _ (f : Bytes → Bytes) (s : Slice) (h : Heap) where
  pub map_in_place_lem :
      IsWithin h s
      → let h' = map_in_place f s h in (elements h' s ≡ map f (elements h s)) × IsWithin h' s
  unfolding map_in_place
  map_in_place_lem (fits, known) =
      let size =
        sym (length-map_lem f (elements h s) ∙ length-take s.len (h.arrays s.array) fits) in
      let (held, room) =
        put_lem s.array s.len (map f (elements h s)) (drop s.len (h.arrays s.array)) h size in
      (held, (room, known))

  pub map_in_place_other : (j : ℕ) → s.array ≢ j → (map_in_place f s h).arrays j ≡ h.arrays j
  unfolding map_in_place
  map_in_place_other j other =
      update-other h.arrays s.array j (map f (elements h s) ++ drop s.len (h.arrays s.array)) other
