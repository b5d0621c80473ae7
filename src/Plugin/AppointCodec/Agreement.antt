-- ===== src/Plugin/AppointCodec/Agreement.antt =====
-- The two ends of one connection.
use myrpc.Base.{
  ℕ, Bytes, List, [], ◌∷◌, ◌++◌, Option, none, some, false, leb, concat, length, ◌≡◌, refl, ap, ◌∙◌,
  arith,
}
use myrpc.Codec.Wire.{Link}
use myrpc.Codec.Conn.{
  CodecFunc, CodecConn, new_codec_conn, set_client_codec, set_server_codec, ensure_client_codec,
  ensure_server_codec,
}
use myrpc.Plugin.AppointCodec.{
  codec_of_type, server_codec_of_type, new_client_appoint_codec_plugin, Transport, post_connected,
  post_conn_accept,
}

-- The two switches name the same codecs.
switches_agree : (t : ℕ) → server_codec_of_type t ≡ codec_of_type t
switches_agree t = refl

module _ (transport : Transport) (default : CodecFunc) where
  client_end :
      (t : ℕ) (l : Link)
      → l.takes ≡ []
      → let (c, e) =
          post_connected transport (new_client_appoint_codec_plugin t) (new_codec_conn l) in
        (e ≡ none)
        × (c.link.out ≡ (t ∷ []) ∷ l.out)
        × (c.codec ≡ (set_client_codec (codec_of_type t) (new_codec_conn l)).codec)
        × (c.layers ≡ some [])
  unfolding post_connected new_client_appoint_codec_plugin set_client_codec
  client_end t l ready = rw (transport.write_plain (t ∷ []) l, ready) (refl, refl, refl, refl)

  server_end :
      (t : ℕ) (l : Link) (more : Bytes) (cs : List Bytes)
      → l.chunks ≡ (t ∷ more) ∷ cs
      → let (c, e) = post_conn_accept transport (new_codec_conn l) in
        (e ≡ none)
        × (concat c.link.chunks ≡ more ++ concat cs)
        × (c.codec ≡ (set_server_codec (server_codec_of_type t) (new_codec_conn l)).codec)
        × (c.layers ≡ some [])
  unfolding post_conn_accept set_server_codec
  server_end t l [] cs arrives = rw (transport.read_plain 1 l, arrives) (refl, refl, refl, refl)
  server_end t l (b ∷ more) cs arrives =
      let longer : leb (length (t ∷ b ∷ more)) 1 ≡ false = ground arith in
      rw (transport.read_plain 1 l, arrives, longer) (refl, refl, refl, refl)

  -- A connection that its plugin left with `set_client_codec fn` has a codec in the end.
  ensured_client :
      (fn : Option CodecFunc) (l : Link) (c : CodecConn)
      → c.codec ≡ (set_client_codec fn (new_codec_conn l)).codec
      → c.layers ≡ some []
      → (ensure_client_codec default c).codec ≡ some (elim fn [ none ↦ default | some f ↦ f ], [])
  unfolding ensure_client_codec
  ensured_client none l c same plain = rw (same, plain)
  ensured_client (some f) l c same plain = rw same

  ensured_server :
      (fn : Option CodecFunc) (l : Link) (c : CodecConn)
      → c.codec ≡ (set_server_codec fn (new_codec_conn l)).codec
      → c.layers ≡ some []
      → (ensure_server_codec default c).codec ≡ some (elim fn [ none ↦ default | some f ↦ f ], [])
  unfolding ensure_server_codec
  ensured_server none l c same plain = rw (same, plain)
  ensured_server (some f) l c same plain = rw same

-- On connections without compression, where the client's write is taken and the byte that the server
-- reads first is the one that the client wrote: both plugins succeed, the client has written that byte
-- alone and the server has read no other, and with one default for both ends, whatever the byte, both
-- come to the same codec.
pub appoint_agreement :
    (transport : Transport) (default : CodecFunc) (t : ℕ) (lc ls : Link) (more : Bytes)
    (cs : List Bytes)
    → lc.takes ≡ []
    → ls.chunks ≡ (t ∷ more) ∷ cs
    → let (c, ce) =
        post_connected transport (new_client_appoint_codec_plugin t) (new_codec_conn lc) in
      let (s, se) = post_conn_accept transport (new_codec_conn ls) in
      (ce ≡ none)
      × (se ≡ none)
      × (c.link.out ≡ (t ∷ []) ∷ lc.out)
      × (concat s.link.chunks ≡ more ++ concat cs)
      × ((f : CodecFunc) × ((ensure_client_codec default c).codec ≡ some (f, []))
          × ((ensure_server_codec default s).codec ≡ some (f, [])))
appoint_agreement transport default t lc ls more cs ready arrives =
    let (c, ce) =
      post_connected transport (new_client_appoint_codec_plugin t) (new_codec_conn lc) in
    let (s, se) = post_conn_accept transport (new_codec_conn ls) in
    let (c_ok, c_out, c_codec, c_plain) = client_end transport default t lc ready in
    let (s_ok, s_left, s_codec, s_plain) = server_end transport default t ls more cs arrives in
    let fn = codec_of_type t in
    (
      c_ok,
      s_ok,
      c_out,
      s_left,
      (
        elim fn [ none ↦ default | some f ↦ f ],
        ensured_client transport default fn lc c c_codec c_plain,
        ensured_server transport default fn ls s
            (s_codec
              ∙ ap (λ fn. (set_server_codec fn (new_codec_conn ls)).codec) (switches_agree t))
            s_plain,
      ),
    )
