-- ===== src/Plugin/AppointCodec/Tests.antt =====
-- A client that asks for gob.
use myrpc.Base.{[], ◌∷◌, none, some, concat, ◌≡◌, refl}
use myrpc.Common.Errors.{eof}
use myrpc.Codec.Wire.{Link, read_from, read_error, write}
use myrpc.Codec.Conn.{CodecFunc, jsonrpc, new_codec_conn, ensure_client_codec, ensure_server_codec}
use myrpc.Plugin.AppointCodec.{
  Transport, new_client_appoint_codec_plugin, post_connected, post_conn_accept,
}
use myrpc.Plugin.AppointCodec.Agreement.{appoint_agreement}

abbrev plain : Transport
plain = record {
  write_through = λ layers b l. write b l;
  read_through = λ layers k l. (
    (read_from k l.chunks).0,
    read_error l.chunks l.ending,
    record l { chunks = (read_from k l.chunks).1 },
  );
  write_plain = λ b l. refl;
  read_plain = λ k l. refl;
}

abbrev client_link : Link
client_link = record { chunks = []; ending = eof; takes = []; out = []; closed = 0 }

abbrev server_link : Link
server_link = record client_link { chunks = (4 ∷ 9 ∷ []) ∷ [] }

appoint_agreement_example :
    let (c, ce) =
      post_connected plain (new_client_appoint_codec_plugin 4) (new_codec_conn client_link) in
    let (s, se) = post_conn_accept plain (new_codec_conn server_link) in
    (ce ≡ none)
    × (se ≡ none)
    × (c.link.out ≡ (4 ∷ []) ∷ [])
    × (concat s.link.chunks ≡ 9 ∷ [])
    × ((f : CodecFunc) × ((ensure_client_codec jsonrpc c).codec ≡ some (f, []))
        × ((ensure_server_codec jsonrpc s).codec ≡ some (f, [])))
appoint_agreement_example =
    appoint_agreement plain jsonrpc 4 client_link server_link (9 ∷ []) [] refl refl
