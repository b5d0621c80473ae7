-- ===== src/Codec/Bson.antt =====
-- codec/bson/bson_codec.go. The encoding of a document, `bson.Marshal` and `bson.Unmarshal`, is not the
-- program's: it is the parameter `Bson`, over any type of documents. `int` has 64 bits.
pub mod Frames
mod Tests
use myrpc.Base.{
  ℕ, ◌+◌, ◌*◌, ◌-◌, ◌≤◌, Bytes, codes, decimal, List, [], ◌∷◌, ◌++◌, Option, none, some, Bool, true,
  false, not, ltb, ◌==◌, if◌then◌else◌, length, ◌≡◌,
}
use myrpc.Common.Errors.{Error, message, Result, ok, err}
use myrpc.Codec.Wire.{Link, read, read_error, read_full, write, close}

-- The length at the front of a document, in little-endian order.
abbrev pub le_32 : Bytes → ℕ
le_32 (a ∷ b ∷ c ∷ d ∷ _) = a + 256 * b + 65536 * c + 16777216 * d
le_32 _ = 0

-- A document is encoded behind its length, which counts itself, and Unmarshal undoes Marshal.
pub record Bson (Doc : Type 0) : Type 0 where
  pub marshal : Doc → Result Bytes
  pub unmarshal : Bytes → Result Doc
  pub unmarshal-marshal : (d : Doc) (b : Bytes) → marshal d ≡ ok b → unmarshal b ≡ ok d
  pub marshal_length :
      (d : Doc) (b : Bytes) → marshal d ≡ ok b → (le_32 b ≡ length b) × (4 ≤ length b)

-- `crashed`: a slice is taken out of range, which panics.
pub data Decoding (A : Type 0) : Type 0 where
  decoded : A → Decoding A
  failed : Error → Decoding A
  crashed : Decoding A

-- `Decode` up to Unmarshal.
abbrev pub body_frame : Bytes → Bytes × Option Error × Link → Decoding Bytes × Link
body_frame front (b, none, l) = (decoded (front ++ b), l)
body_frame front (b, some e, l) = (failed e, l)

abbrev pub front_read : Bytes × Option Error × Link → Decoding Bytes × Link
front_read (front, failing, l) =
    if not (length front == 4)
    then (
      failed (message (codes "Corrupted BSON stream: could only read " ++ decimal (length front))),
      l,
    )
    else elim failing [
      | some e ↦ (failed e, l)
      | none ↦
          if ltb (le_32 front) 4
          then (crashed, l)
          else body_frame front (read_full (le_32 front - 4) l)
    ]

unfoldable pub read_frame : Link → Decoding Bytes × Link
read_frame l = let (front, l') = read 4 l in front_read (front, read_error l.chunks l.ending, l')

module _ {Doc : Type 0} (bson : Bson Doc) where
  abbrev pub unmarshalled : Decoding Bytes → Decoding Doc
  unmarshalled (decoded b) = elim (bson.unmarshal b) [ ok d ↦ decoded d | err e ↦ failed e ]
  unmarshalled (failed e) = failed e
  unmarshalled crashed = crashed

  -- `(*bsonDecoder).Decode`.
  unfoldable pub decode : Link → Decoding Doc × Link
  unfolding read_frame
  decode l = let (frame, l') = read_frame l in (unmarshalled frame, l')

  -- `(*bsonEncoder).Encode`.
  abbrev pub write_checked : ℕ → ℕ × Option Error × Link → Option Error × Link
  write_checked size (n, some e, l) = (some e, l)
  write_checked size (n, none, l) =
      if not (n == size)
      then (
        some (
            message (
              codes "Wrote "
              ++ (decimal n ++ (codes " bytes, should have wrote " ++ decimal size)))),
        l,
      )
      else (none, l)

  unfoldable pub encode : Doc → Link → Option Error × Link
  encode d l = elim (bson.marshal d) [
    | err e ↦ (some e, l)
    | ok b ↦ write_checked (length b) (write b l)
  ]

  -- `WriteRequest` of the client's codec, which closes the connection where the header fails.
  unfoldable pub write_request : Doc → Doc → Link → Option Error × Link
  unfolding encode
  write_request header body l =
      let (failing, l') = encode header l in
      elim failing [ none ↦ encode body l' | some e ↦ (some e, close l') ]

  -- `WriteResponse` of the server's codec.
  unfoldable pub write_response : Doc → Doc → Link → Option Error × Link
  unfolding encode
  write_response header body l =
      let (failing, l') = encode header l in
      elim failing [ none ↦ encode body l' | some e ↦ (some e, l') ]
