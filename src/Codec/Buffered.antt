-- ===== src/Codec/Buffered.antt =====
-- bufio.Writer, as far as the codecs use it: Write and Flush over a connection. A write of the connection
-- that takes less than it is given reports an error, as io.Writer asks of it.
pub mod Streams
use myrpc.Base.{
  ℕ, ◌-◌, ◌≤◌, Bytes, codes, List, [], ◌∷◌, ◌++◌, Option, none, some, leb, if◌then◌else◌, length,
  take, drop, ◌≡◌, refl, ap, ◌∙◌, sym, arith, Bool-cases, inl, inr,
}
use myrpc.Common.Errors.{Error, message}
use myrpc.Codec.Wire.{Link}
use myrpc.Codec.Wire as Wire

-- What is buffered, in place of at most `size` bytes, and the first error of the connection, which stays.
pub record Writer : Type 0 where
  pub size : ℕ
  pub buffered : Bytes
  pub failure : Option Error
  pub link : Link

-- A write past the buffer, which is empty.
abbrev pub write_past : Bytes → Writer → Writer
write_past p w = let (_, e, l) = Wire.write p w.link in record w { failure = e; link = l }

-- The rest of a write, into the empty buffer if it fits.
abbrev pub write_rest : Bytes → Writer → Writer
write_rest p w = if leb (length p) w.size then record w { buffered = p } else write_past p w

abbrev pub flushed : ℕ × Option Error × Link → Writer → Writer
flushed (n, none, l) w = record w { buffered = []; link = l }
flushed (n, some e, l) w = record w { buffered = drop n w.buffered; failure = some e; link = l }

-- Flush of a writer without an error.
abbrev pub flush_bytes : Bytes → Writer → Writer
flush_bytes [] w = w
flush_bytes (b ∷ bs) w = flushed (Wire.write w.buffered w.link) w

-- `Flush`; its error is the field `failure` of what it leaves.
unfoldable pub flush : Writer → Writer
flush w = elim w.failure [ none ↦ flush_bytes w.buffered w | some e ↦ w ]

-- A write that does not fit: the buffer is filled and flushed first, if it holds something.
abbrev pub spill : Bytes → Bytes → Writer → Writer
spill [] p w = write_past p w
spill (b ∷ bs) p w =
    let k = w.size - length w.buffered in
    let w' = flush (record w { buffered = w.buffered ++ take k p }) in
    elim w'.failure [ none ↦ write_rest (drop k p) w' | some e ↦ w' ]

-- `Write`.
unfoldable pub write : Bytes → Writer → Writer
unfolding flush
write p w = elim w.failure [
  | none ↦
      if leb (length p) (w.size - length w.buffered)
      then record w { buffered = w.buffered ++ p }
      else spill w.buffered p w
  | some e ↦ w
]
