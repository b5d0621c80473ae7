-- ===== src/Codec/Wire.antt =====
-- A connection as a codec reads and writes it: io.Reader, io.ReadFull and io.Writer.
use myrpc.Base.{
  ℕ, zero, suc, ◌-◌, ◌<◌, Bytes, List, [], ◌∷◌, ◌++◌, Option, none, some, leb, ◌==◌, if◌then◌else◌,
  length, take, drop, concat, ◌≡◌, refl, ap, ◌∙◌, sym, Bool-cases, inl, inr, arith,
  take_append_beyond, drop_append_beyond, take_append_within, drop_append_within,
}
use myrpc.Common.Errors.{Error, eof, unexpected_eof, message}

-- What will arrive, in the pieces in which it arrives, and the error after them; how much of each
-- write to come is taken, with its error (all of it, where the list is at its end); what each write
-- took so far, newest first; how often it was closed.
pub record Link : Type 0 where
  pub chunks : List Bytes
  pub ending : Error
  pub takes : List (ℕ × Option Error)
  pub out : List Bytes
  pub closed : ℕ

-- One `Read` into a buffer of length `k`: at most one piece.
abbrev pub read_from : ℕ → List Bytes → Bytes × List Bytes
read_from k [] = ([], [])
read_from k (c ∷ cs) = if leb (length c) k then (c, cs) else (take k c, drop k c ∷ cs)

abbrev pub read : ℕ → Link → Bytes × Link
read k l = let (b, cs) = read_from k l.chunks in (b, record l { chunks = cs })

-- The error of a `Read`: that of the connection, once nothing more arrives.
abbrev pub read_error : List Bytes → Error → Option Error
read_error [] ending = some ending
read_error (_ ∷ _) ending = none

-- The loop of io.ReadFull.
unfoldable pub read_bytes : ℕ → List Bytes → Bytes × List Bytes
read_bytes zero cs = ([], cs)
read_bytes (suc k) [] = ([], [])
read_bytes (suc k) (c ∷ cs) =
    let more = read_bytes (suc k - length c) cs in
    if leb (length c) (suc k) then (c ++ more.0, more.1) else (take (suc k) c, drop (suc k) c ∷ cs)

-- The error of io.ReadFull where it got `n` bytes of `k`.
unfoldable pub full_error : ℕ → ℕ → Error → Option Error
full_error n k ending =
    if n == k
    then none
    else some (elim ending [
      | eof ↦ (if n == 0 then eof else unexpected_eof)
      | unexpected_eof ↦ unexpected_eof
      | message m ↦ message m
    ])

unfoldable pub read_full : ℕ → Link → Bytes × Option Error × Link
unfolding read_bytes
read_full k l =
    let (b, cs) = read_bytes k l.chunks in
    (b, full_error (length b) k l.ending, record l { chunks = cs })

-- One `Write`.
abbrev pub write_taking : List (ℕ × Option Error) → Bytes → Link → ℕ × Option Error × Link
write_taking [] b l = (length b, none, record l { out = b ∷ l.out })
write_taking ((n, e) ∷ takes) b l = (n, e, record l { takes = takes; out = take n b ∷ l.out })

abbrev pub write : Bytes → Link → ℕ × Option Error × Link
write b l = write_taking l.takes b l

abbrev pub close : Link → Link
close l = record l { closed = suc l.closed }

pub full_error_empty : (k : ℕ) (ending : Error) → 0 < k → full_error 0 k ending ≡ some ending
unfolding full_error
full_error_empty k eof h = ground arith
full_error_empty k unexpected_eof h = ground arith
full_error_empty k (message m) h = ground arith

pub full_error_whole : (k : ℕ) (ending : Error) → full_error k k ending ≡ none
unfolding full_error
full_error_whole k ending = ground arith

-- However the bytes arrive, io.ReadFull takes the first of them and leaves the others.
pub read_bytes_lem :
    (k : ℕ) (cs : List Bytes)
    → ((read_bytes k cs).0 ≡ take k (concat cs)) × (concat (read_bytes k cs).1 ≡ drop k (concat cs))
unfolding read_bytes
read_bytes_lem zero cs = (refl, refl)
read_bytes_lem (suc k) [] = (refl, refl)
read_bytes_lem (suc k) (c ∷ cs) =
    let (first, left) = read_bytes_lem (suc k - length c) cs in
    elim (Bool-cases (leb (length c) (suc k))) [
      | inl short ↦ rw short (
        ap (λ t. c ++ t) first ∙ sym (take_append_beyond (suc k) c (concat cs) (ground arith)),
        left ∙ sym (drop_append_beyond (suc k) c (concat cs) (ground arith)),
      )
      | inr long ↦ rw long (
        sym (take_append_within (suc k) c (concat cs) (ground arith)),
        sym (drop_append_within (suc k) c (concat cs) (ground arith)),
      )
    ]
