-- ===== src/Codec/Conn.antt =====
-- client/client_codecconn.go and server/server_codecconn.go, which are alike: a connection with the codec
-- that was made for it. A compressing connection wraps another one, so a connection is its link with
-- the kinds of compression around it, the outermost first.
use myrpc.Base.{ℕ, List, [], Option, none, some}
use myrpc.Codec.Wire.{Link, close}

-- The functions that make a codec: those of codec/, and others by a number.
pub data CodecFunc : Type 0 where
  bson colfer gencode gob jsonrpc protobuf : CodecFunc
  custom : ℕ → CodecFunc

-- `CompressType`, a byte.
abbrev pub CompressType : Type 0
CompressType = ℕ

-- The codec keeps the connection that it was made for. `none` is a nil connection, and a nil codec.
pub record CodecConn : Type 0 where
  pub link : Link
  pub layers : Option (List CompressType)
  pub codec : Option (CodecFunc × List CompressType)

-- `NewClientCodecConn` and `NewServerCodecConn`.
abbrev pub new_codec_conn : Link → CodecConn
new_codec_conn l = record { link = l; layers = some []; codec = none }

abbrev pub set_conn : Option (List CompressType) → CodecConn → CodecConn
set_conn layers c = record c { layers = layers }

abbrev pub get_conn : CodecConn → Option (List CompressType)
get_conn c = c.layers

-- The condition of `SetClientCodec` and `SetServerCodec`.
abbrev codec_made :
    Option CodecFunc
    → Option (List CompressType)
    → Option (CodecFunc × List CompressType)
    → Option (CodecFunc × List CompressType)
codec_made (some fn) (some layers) old = some (fn, layers)
codec_made (some fn) none old = old
codec_made none layers old = old

unfoldable pub set_client_codec : Option CodecFunc → CodecConn → CodecConn
set_client_codec fn c = record c { codec = codec_made fn c.layers c.codec }

unfoldable pub set_server_codec : Option CodecFunc → CodecConn → CodecConn
set_server_codec fn c = record c { codec = codec_made fn c.layers c.codec }

-- What `newInvoker` of client/client.go and `ServeConn` of server/server.go do before they use a
-- connection: one without a codec gets the default.
unfoldable pub ensure_client_codec : CodecFunc → CodecConn → CodecConn
unfolding set_client_codec
ensure_client_codec default c = elim c.codec [
  | none ↦ set_client_codec (some default) c
  | some _ ↦ c
]

unfoldable pub ensure_server_codec : CodecFunc → CodecConn → CodecConn
unfolding set_server_codec
ensure_server_codec default c = elim c.codec [
  | none ↦ set_server_codec (some default) c
  | some _ ↦ c
]

-- `Close` closes through the codec, where there is one, and else the connection itself: either way
-- the link is closed once, by the codec's `Close` or at once.
abbrev pub close_codec_conn : CodecConn → CodecConn
close_codec_conn c = record c { link = close c.link }
