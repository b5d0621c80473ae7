-- ===== src/Codec/Bson/Tests.antt =====
-- A codec of numbers below 256, each of which takes five bytes.
use myrpc.Base.{ℕ, ◌≤◌, Bytes, codes, [], ◌∷◌, ltb, if◌then◌else◌, length, concat, ◌≡◌, refl, arith}
use myrpc.Common.Errors.{eof, message, Result, ok, err}
use myrpc.Codec.Wire.{Link}
use myrpc.Codec.Bson.{le_32, Bson, decoded, decode, encode, write_request}
use myrpc.Codec.Bson.Frames.{decode-encode}

abbrev number_bytes : ℕ → Result Bytes
number_bytes n =
    if ltb n 256 then ok (5 ∷ 0 ∷ 0 ∷ 0 ∷ n ∷ []) else err (message (codes "too large"))

abbrev number_of : Bytes → Result ℕ
number_of (a ∷ b ∷ c ∷ d ∷ n ∷ []) = ok n
number_of _ = err (message (codes "not a number"))

number_of-number_bytes : (n : ℕ) (b : Bytes) → number_bytes n ≡ ok b → number_of b ≡ ok n
number_of-number_bytes n b h = ground arith

number_bytes-length :
    (n : ℕ) (b : Bytes) → number_bytes n ≡ ok b → (le_32 b ≡ length b) × (4 ≤ length b)
number_bytes-length n b h = ground arith

abbrev numbers : Bson ℕ
numbers = record {
  marshal = number_bytes;
  unmarshal = number_of;
  unmarshal-marshal = number_of-number_bytes;
  marshal_length = number_bytes-length;
}

abbrev fresh_link : Link
fresh_link = record { chunks = []; ending = eof; takes = []; out = []; closed = 0 }

-- The document of 7, in two pieces, and a byte behind it.
abbrev arriving : Link
arriving = record fresh_link { chunks = (5 ∷ 0 ∷ 0 ∷ 0 ∷ []) ∷ (7 ∷ 1 ∷ []) ∷ [] }

write_request_test :
    (write_request numbers 7 8 fresh_link).1.out
    ≡ (5 ∷ 0 ∷ 0 ∷ 0 ∷ 8 ∷ []) ∷ (5 ∷ 0 ∷ 0 ∷ 0 ∷ 7 ∷ []) ∷ []
unfolding write_request
write_request_test = refl

decode-encode_example :
    ((decode numbers arriving).0 ≡ decoded 7) × (concat (decode numbers arriving).1.chunks ≡ 1 ∷ [])
unfolding encode
decode-encode_example =
    decode-encode numbers 7 fresh_link (record fresh_link { out = (5 ∷ 0 ∷ 0 ∷ 0 ∷ 7 ∷ []) ∷ [] })
      arriving (5 ∷ 0 ∷ 0 ∷ 0 ∷ 7 ∷ []) (1 ∷ []) refl refl refl (omega arith)

abbrev hostile : Link
hostile = record fresh_link { chunks = (0 ∷ 0 ∷ 0 ∷ 0 ∷ []) ∷ [] }
