-- ===== src/Codec/Bson/Frames.antt =====
-- One document on the wire.
use myrpc.Base.{
  ℕ, zero, suc, ◌-◌, ◌≤◌, Bytes, List, [], ◌∷◌, ◌++◌, Option, none, some, true, false, ltb, leb,
  ◌==◌, length, take, drop, concat, ◌≡◌, refl, ap, ◌∙◌, sym, Bool-cases, inl, inr, arith,
  take-append, drop-append, take-length, take_append_within, drop_append_within, length-take,
  take_append_drop,
}
use myrpc.Common.Errors.{Error, ok, Result-cases}
use myrpc.Codec.Wire.{
  Link, read_from, read_error, read_full, read_bytes, read_bytes_lem, write_taking,
  full_error_whole,
}
use myrpc.Codec.Bson.{
  le_32, Bson, decoded, body_frame, front_read, read_frame, unmarshalled, decode, write_checked,
  encode,
}

-- The bytes of the next piece to arrive.
abbrev pub first_chunk : List Bytes → Bytes
first_chunk [] = []
first_chunk (c ∷ _) = c

read_from_front :
    (k : ℕ) (cs : List Bytes)
    → k ≤ length (first_chunk cs)
    → ((read_from k cs).0 ≡ take k (concat cs)) × (concat (read_from k cs).1 ≡ drop k (concat cs))
read_from_front zero [] h = (refl, refl)
read_from_front (suc k) [] h = absurd (omega arith)
read_from_front k (c ∷ cs) h = elim (Bool-cases (leb (length c) k)) [
  | inl whole ↦
      let e : k ≡ length c = ground arith in
      rw whole (rw e (sym (take-append c (concat cs)), sym (drop-append c (concat cs))))
  | inr part ↦
      rw part
        (sym (take_append_within k c (concat cs) h), sym (drop_append_within k c (concat cs) h))
]

le_32-take : (b : Bytes) → 4 ≤ length b → le_32 (take 4 b) ≡ le_32 b
le_32-take [] h = absurd (omega arith)
le_32-take (_ ∷ []) h = absurd (omega arith)
le_32-take (_ ∷ _ ∷ []) h = absurd (omega arith)
le_32-take (_ ∷ _ ∷ _ ∷ []) h = absurd (omega arith)
le_32-take (_ ∷ _ ∷ _ ∷ _ ∷ b) h = refl

-- The body of a document is read whole, however it arrives.
body_frame-read_full :
    (k : ℕ) (l : Link) (front t rest : Bytes)
    → concat l.chunks ≡ t ++ rest
    → length t ≡ k
    → ((body_frame front (read_full k l)).0 ≡ decoded (front ++ t))
      × (concat (body_frame front (read_full k l)).1.chunks ≡ rest)
unfolding read_full
body_frame-read_full k l front t rest arrives size =
    let (first, left) = read_bytes_lem k l.chunks in
    let got : (read_bytes k l.chunks).0 ≡ t = first ∙ (rw (arrives, ← size) (take-append t rest)) in
    rw (got, size, full_error_whole k l.ending)
      (refl, left ∙ (rw (arrives, ← size) (drop-append t rest)))

length-drop_four : (b : Bytes) → 4 ≤ length b → length (drop 4 b) ≡ length b - 4
length-drop_four [] h = absurd (omega arith)
length-drop_four (_ ∷ []) h = absurd (omega arith)
length-drop_four (_ ∷ _ ∷ []) h = absurd (omega arith)
length-drop_four (_ ∷ _ ∷ _ ∷ []) h = absurd (omega arith)
length-drop_four (_ ∷ _ ∷ _ ∷ _ ∷ b) h = omega arith

-- A read that gives something gives no error.
read_error-none :
    (cs : List Bytes) (ending : Error) → 4 ≤ length (first_chunk cs) → read_error cs ending ≡ none
read_error-none [] ending h = absurd (omega arith)
read_error-none (c ∷ cs) ending h = refl

-- The front is read without an error.
read_frame-front_read :
    (l : Link) (b : Bytes)
    → 4 ≤ length (first_chunk l.chunks)
    → (read_from 4 l.chunks).0 ≡ b
    → read_frame l ≡ front_read (b, none, record l { chunks = (read_from 4 l.chunks).1 })
unfolding read_frame
read_frame-front_read l b whole front =
    let l1 : Link = record l { chunks = (read_from 4 l.chunks).1 } in
    ap (λ e. front_read ((read_from 4 l.chunks).0, e, l1)) (read_error-none l.chunks l.ending whole)
    ∙ ap (λ c. front_read (c, none, l1)) front

-- A frame whose length counts itself is read as it was written.
read_frame-append :
    (l : Link) (b rest : Bytes)
    → concat l.chunks ≡ b ++ rest
    → 4 ≤ length (first_chunk l.chunks)
    → le_32 b ≡ length b
    → 4 ≤ length b
    → ((read_frame l).0 ≡ decoded b) × (concat (read_frame l).1.chunks ≡ rest)
read_frame-append l b rest arrives whole counted long =
    let (first, left) = read_from_front 4 l.chunks whole in
    let l1 : Link = record l { chunks = (read_from 4 l.chunks).1 } in
    let front : (read_from 4 l.chunks).0 ≡ take 4 b =
      first ∙ ap (take 4) arrives ∙ take_append_within 4 b rest long in
    let body : concat l1.chunks ≡ drop 4 b ++ rest =
      left ∙ ap (drop 4) arrives ∙ drop_append_within 4 b rest long in
    let four : (length (take 4 b) == 4) ≡ true = rw (length-take 4 b long) refl in
    let enough : ltb (le_32 (take 4 b)) 4 ≡ false = ground (arith, le_32-take b long) in
    let size : length (drop 4 b) ≡ le_32 (take 4 b) - 4 =
      omega (arith, length-drop_four b long, le_32-take b long, counted) in
    let (got, rest_lem) =
      body_frame-read_full (le_32 (take 4 b) - 4) l1 (take 4 b) (drop 4 b) rest body size in
    rw (read_frame-front_read l (take 4 b) whole front, four, enough)
      (got ∙ ap decoded (take_append_drop 4 b), rest_lem)

module _ {Doc : Type 0} (bson : Bson Doc) where
  -- What Encode writes when it reports no error is what Marshal gave.
  write_checked_lem :
      (b : Bytes) (l : Link) (takes : List (ℕ × Option Error)) (l' : Link)
      → write_checked bson (length b) (write_taking takes b l) ≡ (none, l')
      → l'.out ≡ b ∷ l.out
  write_checked_lem b l [] l' h =
      let same : (length b == length b) ≡ true = ground arith in
      ap (λ t. t.1.out) (sym (rw same at h))
  write_checked_lem b l ((n, none) ∷ takes) l' h = elim (Bool-cases (n == length b)) [
    | inl same ↦
        let e : n ≡ length b = ground arith in
        ap (λ t. t.1.out) (sym (rw same at h)) ∙ (rw e (ap (λ t. t ∷ l.out) (take-length b)))
    | inr other ↦ cc (rw other at h)
  ]
  write_checked_lem b l ((n, some x) ∷ takes) l' h = cc

  encode_lem :
      (d : Doc) (l l' : Link)
      → encode bson d l ≡ (none, l')
      → (b : Bytes) × (bson.marshal d ≡ ok b) × (l'.out ≡ b ∷ l.out)
  unfolding encode
  encode_lem d l l' h = elim (Result-cases (bson.marshal d)) [
    | inl (b, made) ↦ (b, made, write_checked_lem b l l.takes l' (rw (made, encode) at h))
    | inr (e, unmade) ↦ cc (rw (unmade, encode) at h)
  ]

-- What Encode writes when it reports no error, Decode reads: if it arrives in any pieces, of which the
-- first has the four bytes of the length at least, and whatever comes behind it, then Decode gives the
-- document and leaves what comes behind it.
pub decode-encode :
    {Doc : Type 0} (bson : Bson Doc) (d : Doc) (l l' r : Link) (b rest : Bytes)
    → encode bson d l ≡ (none, l')
    → l'.out ≡ b ∷ l.out
    → concat r.chunks ≡ b ++ rest
    → 4 ≤ length (first_chunk r.chunks)
    → ((decode bson r).0 ≡ decoded d) × (concat (decode bson r).1.chunks ≡ rest)
unfolding decode
decode-encode bson d l l' r b rest written out arrives whole =
    let (b', made, out') = encode_lem bson d l l' written in
    let same : b' ≡ b = cc (out, out') in
    let made_b : bson.marshal d ≡ ok b = made ∙ ap ok same in
    let (counted, long) = bson.marshal_length d b made_b in
    let (frame, left) = read_frame-append r b rest arrives whole counted long in
    (rw (frame, bson.unmarshal-marshal d b made_b, unmarshalled), left)
