-- ===== src/Client/Dial/Settled.antt =====
-- What becomes of the connection that `newInvoker` opened.
use myrpc.Base.{
  ◌<◌, Bytes, codes, beq, beq_sound, List, Option, none, some, Bool, if◌then◌else◌, ◌≡◌, refl, sym,
  ap, ◌∙◌, ◌⊎◌, inl, inr, arith, subst, Bool-cases,
}
use myrpc.Common.Errors.{Error, Result, ok, err}
use myrpc.Codec.Wire.{Link}
use myrpc.Codec.Conn.{CodecFunc, CompressType, CodecConn, new_codec_conn, set_client_codec}
use myrpc.Plugin.AppointCodec.{layers_of}
use myrpc.Codec.ConnHooks.{IsThere, AreTame, run_conn_hooks-open}
use myrpc.Client.Hooks.{err_post_connected}
use myrpc.Client.Dial.{
  Client, Network, codec_or, init, run_connected, with_codec, hooked, dialled, connected,
  http_request, http_requested, http_answered, http_hooked, http_dialled, new_xxx_client,
  new_kcp_client, new_http_client, new_invoker,
}

-- A new connection is open; writing a request and reading a response do not close it, and reading does
-- not take its codec.
pub record IsOpening (net : Network) : Type 0 where
  pub fresh : (t : Bool) (n a : Bytes) (l : Link) → net.dial t n a ≡ ok l → l.closed ≡ 0
  pub fresh_kcp : (a : Bytes) (l : Link) → net.dial_kcp a ≡ ok l → l.closed ≡ 0
  pub write_open :
      (ls : List CompressType) (b : Bytes) (l : Link)
      → (net.transport.write_through ls b l).2.closed ≡ l.closed
  pub read_open :
      (c : CodecConn)
      → ((net.read_response c).1.link.closed ≡ c.link.closed)
        × ((net.read_response c).1.codec ≡ c.codec)

-- An open connection with a codec.
abbrev pub IsOpen : CodecConn → Type 0
IsOpen c = (c.link.closed ≡ 0) × IsThere c.codec

-- With an invoker its connection is open and has a codec; with an error, for a reason `F`, no connection
-- is left open.
abbrev pub Settles : Type 0 → Result CodecConn → Option CodecConn → Type 0
Settles F (ok c) none = ⊥
Settles F (ok c) (some c') = (c ≡ c') × IsOpen c'
Settles F (err e) none = F
Settles F (err e) (some c) = F × (0 < c.link.closed)

abbrev pub opened : Network → Client → Bytes → Bytes → Result Link
opened net client network address =
    if beq network (codes "kcp") then net.dial_kcp address else net.dial client.tls network address

-- The dial failed, or a hook did, or it was over HTTP.
abbrev pub Failed : Client → Bytes → Result Link → Type 0
Failed client network o =
    ((e : Error) × (o ≡ err e))
    ⊎ ((l : Link) × (e : Error) × (o ≡ ok l)
        × ((run_connected client.plugins (new_codec_conn l)).1 ≡ some e))
    ⊎ (network ≡ codes "http")

with_codec-open :
    (client : Client) (f : CodecFunc) (l : Link) (layers : Option (List CompressType))
    (codec : Option (CodecFunc × List CompressType))
    → client.codec_func ≡ some f
    → IsThere layers
    → let c : CodecConn = record { link = l; layers = layers; codec = codec } in
      ((with_codec client c).link ≡ l) × IsThere (with_codec client c).codec
unfolding with_codec set_client_codec
with_codec-open client f l none codec has there = elim there [ ]
with_codec-open client f l (some layers) none has there = rw has (refl, tt)
with_codec-open client f l (some layers) (some x) has there = (refl, tt)

module _ (client : Client) (f : CodecFunc) (has : client.codec_func ≡ some f) where
  -- What passed the hooks, and then got its codec.
  coded : (c : CodecConn) → (c.link.closed ≡ 0) × IsThere c.layers → IsOpen (with_codec client c)
  coded c (up, there) =
      let (same, made) = with_codec-open client f c.link c.layers c.codec has there in
      (ap (λ l. l.closed) same ∙ up, made)

  hooked-Settles :
      (F : Type 0) (x : CodecConn × Option Error)
      → ((e : Error) → x.1 ≡ some e → F)
      → (x.1 ≡ none → (x.0.link.closed ≡ 0) × IsThere x.0.layers)
      → Settles F (hooked client x).result (hooked client x).conn
  hooked-Settles F (c, some e) reason passed = (reason e refl, omega arith)
  hooked-Settles F (c, none) reason passed = (refl, coded c (passed refl))

  passing :
      AreTame client.plugins
      → (l : Link) → l.closed ≡ 0
      → let x = run_connected client.plugins (new_codec_conn l) in
        x.1 ≡ none → (x.0.link.closed ≡ 0) × IsThere x.0.layers
  passing tames l up passed =
      let (same, there) =
        run_conn_hooks-open err_post_connected client.plugins (new_codec_conn l) tames tt passed in
      (same ∙ up, there)

  dialled-Settles :
      (network : Bytes) (o : Result Link)
      → AreTame client.plugins
      → ((l : Link) → o ≡ ok l → l.closed ≡ 0)
      → Settles (Failed client network o) (dialled client o).result (dialled client o).conn
  dialled-Settles network (err e) tames up = inl (e, refl)
  dialled-Settles network (ok l) tames up =
      hooked-Settles (Failed client network (ok l))
        (run_connected client.plugins (new_codec_conn l))
        (λ e failed. inr (inl (l, e, refl, failed))) (passing tames l (up l refl))

  module _ (net : Network) (opening : IsOpening net) (address : Bytes) where
    abbrev http : Bytes
    http = codes "http"

    answered-Settles :
        (F : Type 0) (reason : F) (x : Result Bytes × CodecConn)
        → IsOpen x.1
        → Settles F
            (http_answered net http address x).result
            (http_answered net http address x).conn
    answered-Settles F reason (err e, c) up = (reason, omega arith)
    answered-Settles F reason (ok status, c) up = elim (Bool-cases (beq status connected)) [
      | inl fine ↦ rw fine (refl, up)
      | inr other ↦ rw other (reason, omega arith)
    ]

    -- Sending the request and reading the response.
    exchanged :
        (c : CodecConn)
        → IsOpen c
        → IsOpen (net.read_response (http_requested net client.http_path c)).1
    exchanged c (up, made) =
        let requested = http_requested net client.http_path c in
        let (same, codec) = opening.read_open requested in
        (
          same
              ∙ opening.write_open (layers_of c.layers) (http_request client.http_path) c.link
              ∙ up,
          subst IsThere (sym codec) made,
        )

    http_hooked-Settles :
        (F : Type 0) (reason : F) (x : CodecConn × Option Error)
        → (x.1 ≡ none → (x.0.link.closed ≡ 0) × IsThere x.0.layers)
        → Settles F
            (http_hooked net client http address x).result
            (http_hooked net client http address x).conn
    http_hooked-Settles F reason (c, some e) passed = (reason, omega arith)
    http_hooked-Settles F reason (c, none) passed =
        answered-Settles F reason
          (net.read_response (http_requested net client.http_path (with_codec client c)))
          (exchanged (with_codec client c) (coded c (passed refl)))

    http_dialled-Settles :
        (o : Result Link)
        → AreTame client.plugins
        → ((l : Link) → o ≡ ok l → l.closed ≡ 0)
        → Settles
            (Failed client http o)
            (http_dialled net client http address o).result
            (http_dialled net client http address o).conn
    http_dialled-Settles (err e) tames up = inl (e, refl)
    http_dialled-Settles (ok l) tames up =
        http_hooked-Settles (Failed client http (ok l)) (inr (inr refl))
          (run_connected client.plugins (new_codec_conn l)) (passing tames l (up l refl))

-- Over a network whose connections are open, with hooks that leave the connection open and there: an
-- invoker of NewClient's client comes with an open connection that has a codec, and an error with no
-- connection left open; for a network other than http, there is an error only where the dial or a hook
-- failed.
pub new_invoker-Settles :
    (net : Network) (client : Client) (network address : Bytes)
    → IsOpening net
    → AreTame client.plugins
    → let d = new_invoker net (init client) network address in
      Settles (Failed client network (opened net client network address)) d.result d.conn
unfolding new_invoker new_xxx_client new_kcp_client new_http_client init beq
new_invoker-Settles net client network address opening tames =
    let f = codec_or client.codec_func in
    elim (Bool-cases (beq network (codes "http"))) [
      | inl http ↦
          subst
            (λ n.
              Settles (Failed client n (opened net client n address))
                (new_invoker net (init client) n address).result
                (new_invoker net (init client) n address).conn)
            (sym (beq_sound network (codes "http") http))
            (http_dialled-Settles (init client) f refl net opening address
              (net.dial client.tls (codes "http") address) tames
              (λ l e. opening.fresh client.tls (codes "http") address l e))
      | inr other ↦ elim (Bool-cases (beq network (codes "kcp"))) [
        | inl kcp ↦
            rw (other, kcp)
              (dialled-Settles (init client) f refl network (net.dial_kcp address) tames
                (λ l e. opening.fresh_kcp address l e))
        | inr neither ↦
            rw (other, neither)
              (dialled-Settles (init client) f refl network (net.dial client.tls network address)
                tames (λ l e. opening.fresh client.tls network address l e))
      ]
    ]
