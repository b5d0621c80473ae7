-- ===== src/Codec/Gob.antt =====
-- codec/gob/gobrpc.go. What gob's encoder makes of a value is not the program's: the bytes that it writes
-- and its error are given. The readers only call gob's decoder.
pub mod Requests
pub mod Orderly
mod Tests
use myrpc.Base.{
  ℕ, zero, suc, Bytes, List, [], ◌∷◌, Option, none, some, Bool, true, false, if◌then◌else◌,
}
use myrpc.Common.Errors.{Error}
use myrpc.Codec.Wire.{Link}
use myrpc.Codec.Wire as Wire
use myrpc.Codec.Buffered.{Writer, write, flush}

-- The bytes that the encoder writes for a value, and its own error.
abbrev pub Encoded : Type 0
Encoded = Bytes × Option Error

-- `bufio.NewWriter(conn)`.
abbrev pub new_writer : Link → Writer
new_writer l = record { size = 4096; buffered = []; failure = none; link = l }

-- `enc.Encode(v)`: an error of the writer, or else that of the encoder.
unfoldable pub encode : Encoded → Writer → Option Error × Writer
encode v w = let w' = write v.0 w in (elim w'.failure [ none ↦ v.1 | some e ↦ some e ], w')

-- `encBuf.Flush()`.
abbrev pub flush_done : Writer → Option Error × Writer
flush_done w = let w' = flush w in (w'.failure, w')

-- `WriteRequest` of the client's codec, which is its writer.
abbrev pub body_encoded : Option Error × Writer → Option Error × Writer
body_encoded (none, w) = flush_done w
body_encoded (some e, w) = (some e, w)

abbrev pub header_encoded : Encoded → Option Error × Writer → Option Error × Writer
header_encoded body (none, w) = body_encoded (encode body w)
header_encoded body (some e, w) = (some e, w)

unfoldable pub write_request : Encoded → Encoded → Writer → Option Error × Writer
unfolding encode
write_request header body w = header_encoded body (encode header w)

pub record ServerCodec : Type 0 where
  pub writer : Writer
  pub closed : Bool

-- `NewGobServerCodec`.
abbrev pub new_gob_server_codec : Link → ServerCodec
new_gob_server_codec l = record { writer = new_writer l; closed = false }

-- `Close` of the server's codec.
unfoldable pub close : ServerCodec → ServerCodec
close c =
    if c.closed
    then c
    else record c { closed = true; writer = record (c.writer) { link = Wire.close c.writer.link } }

-- The branch of an encoder's error: where what was written can be flushed, the codec is closed.
abbrev pub broken : Error → ServerCodec → Option Error × ServerCodec
broken e c =
    let w = flush c.writer in
    let c' = record c { writer = w } in (some e, elim w.failure [ none ↦ close c' | some x ↦ c' ])

-- `WriteResponse`.
abbrev pub reply_encoded : ServerCodec → Option Error × Writer → Option Error × ServerCodec
reply_encoded c (none, w) = let w' = flush w in (w'.failure, record c { writer = w' })
reply_encoded c (some e, w) = broken e (record c { writer = w })

abbrev pub response_encoded :
    Encoded → ServerCodec → Option Error × Writer → Option Error × ServerCodec
response_encoded body c (none, w) = reply_encoded c (encode body w)
response_encoded body c (some e, w) = broken e (record c { writer = w })

unfoldable pub write_response : Encoded → Encoded → ServerCodec → Option Error × ServerCodec
unfolding close encode
write_response header body c = response_encoded body c (encode header c.writer)
