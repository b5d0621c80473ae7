-- ===== src/Plugin/AppointCodec.antt =====
-- plugin/appoint_codec/appoint_codec.go: the client's first byte names the codec.
pub mod Agreement
mod Tests
use myrpc.Base.{ℕ, Bytes, List, [], ◌∷◌, Option, none, some, ◌==◌, if◌then◌else◌, ◌≡◌}
use myrpc.Common.Errors.{Error}
use myrpc.Codec.Wire.{Link, read_from, read_error, write}
use myrpc.Codec.Conn.{
  CodecFunc, bson, colfer, gencode, gob, jsonrpc, protobuf, CompressType, CodecConn,
  set_client_codec, set_server_codec,
}

-- The switch of NewClientAppointCodecPlugin on a `CodecType`, a byte from 1 on.
abbrev pub codec_of_type : ℕ → Option CodecFunc
codec_of_type t =
    if t == 1
    then some bson
    else if t == 2
    then some colfer
    else if t == 3
    then some gencode
    else if t == 4
    then some gob
    else if t == 5
    then some jsonrpc
    else if t == 6
    then some protobuf
    else none

-- The switch of PostConnAccept, on the byte that was read; `none` where it sets no codec.
abbrev pub server_codec_of_type : ℕ → Option CodecFunc
server_codec_of_type t =
    if t == 1
    then some bson
    else if t == 2
    then some colfer
    else if t == 3
    then some gencode
    else if t == 4
    then some gob
    else if t == 5
    then some jsonrpc
    else if t == 6
    then some protobuf
    else none

-- A client's plugin holds both.
pub record AppointCodecPlugin : Type 0 where
  pub client_codec_type : Bytes
  pub client_codec_func : Option CodecFunc

unfoldable pub new_client_appoint_codec_plugin : ℕ → AppointCodecPlugin
new_client_appoint_codec_plugin t = record {
  client_codec_type = t ∷ [];
  client_codec_func = codec_of_type t;
}

-- How bytes pass through the compressions around a link; without any, as they are.
pub record Transport : Type 0 where
  pub write_through : List CompressType → Bytes → Link → ℕ × Option Error × Link
  pub read_through : List CompressType → ℕ → Link → Bytes × Option Error × Link
  pub write_plain : (b : Bytes) (l : Link) → write_through [] b l ≡ write b l
  pub read_plain :
      (k : ℕ) (l : Link)
      → read_through [] k l ≡ (
        (read_from k l.chunks).0,
        read_error l.chunks l.ending,
        record l { chunks = (read_from k l.chunks).1 },
      )

abbrev pub layers_of : Option (List CompressType) → List CompressType
layers_of none = []
layers_of (some layers) = layers

-- `b[0]` of the buffer of one byte, which was zero before.
abbrev pub first_of : Bytes → ℕ
first_of [] = 0
first_of (b ∷ _) = b

module _ (transport : Transport) where
  -- `PostConnected`.
  unfoldable pub post_connected : AppointCodecPlugin → CodecConn → CodecConn × Option Error
  post_connected p c =
      let c' = set_client_codec p.client_codec_func c in
      let (n, e, l) = transport.write_through (layers_of c'.layers) p.client_codec_type c'.link in
      (record c' { link = l }, e)

  -- `PostConnAccept`.
  abbrev pub appointed : CodecConn → Bytes × Option Error × Link → CodecConn × Option Error
  appointed c (b, some e, l) = (record c { link = l }, some e)
  appointed c (b, none, l) =
      (set_server_codec (server_codec_of_type (first_of b)) (record c { link = l }), none)

  unfoldable pub post_conn_accept : CodecConn → CodecConn × Option Error
  post_conn_accept c = appointed c (transport.read_through (layers_of c.layers) 1 c.link)
