-- ===== src/Plugin/Compression.antt =====
-- plugin/compression/compression.go. The compressors are other projects': what they do is given by
-- `Encoder`, a writer that turns what is written into it into bytes for the connection.
pub mod Delivery
mod Tests
use myrpc.Base.{
  ℕ, ◌+◌, ◌≤◌, Bytes, List, [], ◌∷◌, ◌++◌, Option, none, some, ◌==◌, if◌then◌else◌, length, ◌≡◌,
}
use myrpc.Common.Errors.{Error}
use myrpc.Codec.Conn.{CompressType, CodecConn, get_conn, set_conn}

-- A compressing writer over a state `S`: what it sends on, with its error.
pub record Encoder (S : Type 0) : Type 0 where
  pub start : S
  pub put : S → Bytes → S × Bytes × Option Error
  pub flush : S → S × Bytes × Option Error

-- `flate.NewWriter`, `snappy.NewBufferedWriter` and `lz4.NewWriter`.
pub record Encoders (S : Type 0) : Type 0 where
  pub flate : Encoder S
  pub snappy : Encoder S
  pub lz4 : Encoder S

-- The writer of a CompressConn: the connection itself, a `writeFlusher` over flate, snappy or lz4.
pub data Writer (S : Type 0) : Type 0 where
  direct : Writer S
  flushing : S → Writer S
  snappy : S → Writer S
  lz4 : S → Writer S

pub record CompressConn (S : Type 0) : Type 0 where
  pub writer : Writer S
  pub compress_type : CompressType
  -- What the connection below was given.
  pub sent : Bytes

module _ {S : Type 0} (encoders : Encoders S) where
  -- `NewCompressConn`, its writer; its reader undoes the compression of the same type.
  unfoldable pub new_compress_conn : CompressType → CompressConn S
  new_compress_conn t = record {
    writer =
        if t == 1
        then flushing encoders.flate.start
        else if t == 2
        then snappy encoders.snappy.start
        else if t == 3
        then lz4 encoders.lz4.start
        else direct;
    compress_type = t;
    sent = [];
  }

  -- `(*writeFlusher).Write`; the first result is the state, and the last the error.
  abbrev pub flushed : S × Bytes × Option Error → S × Bytes × Option Error
  flushed (s, b, some e) = (s, b, some e)
  flushed (s, b, none) = let (s', more, err) = encoders.flate.flush s in (s', b ++ more, err)

  unfoldable pub flush_write : S → Bytes → S × Bytes × Option Error
  flush_write s b = flushed (encoders.flate.put s b)

  -- `(*CompressConn).Write`.
  unfoldable pub compress_write : Bytes → CompressConn S → CompressConn S × Option Error
  unfolding flush_write
  compress_write b c = elim c.writer [
    | direct ↦ (record c { sent = c.sent ++ b }, none)
    | flushing s ↦
        let (s', out, err) = flush_write s b in
        (record c { writer = flushing s'; sent = c.sent ++ out }, err)
    | snappy s ↦
        let (s', out, err) = encoders.snappy.put s b in
        (record c { writer = snappy s'; sent = c.sent ++ out }, err)
    | lz4 s ↦
        let (s', out, err) = encoders.lz4.put s b in
        (record c { writer = lz4 s'; sent = c.sent ++ out }, err)
  ]

  -- The writes of a connection, one after the other.
  unfoldable pub compress_writes : List Bytes → CompressConn S → CompressConn S
  compress_writes [] c = c
  compress_writes (b ∷ bs) c = compress_writes bs (compress_write b c).0

-- `PostConnAccept` and `PostConnected`: the connection is wrapped. A codec that was made before keeps
-- the connection that it was made for.
abbrev wrapped : CompressType → Option (List CompressType) → List CompressType
wrapped t none = t ∷ []
wrapped t (some layers) = t ∷ layers

unfoldable pub compress_conn_accepted : CompressType → CodecConn → CodecConn
compress_conn_accepted t c = set_conn (some (wrapped t (get_conn c))) c

unfoldable pub compress_connected : CompressType → CodecConn → CodecConn
compress_connected t c = set_conn (some (wrapped t (get_conn c))) c
