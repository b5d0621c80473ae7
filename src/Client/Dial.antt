-- ===== src/Client/Dial.antt =====
-- The making of invokers in client/client.go: init, newInvoker and its three kinds of dial. What the
-- network does is given by `Network`.
pub mod Settled
mod Tests
use myrpc.Base.{
  ℕ, Bytes, codes, beq, List, [], ◌∷◌, ◌++◌, Option, none, some, Bool, if◌then◌else◌, ℤ, pos,
  is_positive, is_empty,
}
use myrpc.Common.Errors.{Error, message, error_text, format, Result, ok, err}
use myrpc.Codec.Wire.{Link}
use myrpc.Codec.Conn.{CodecFunc, gob, CodecConn, new_codec_conn, set_client_codec, close_codec_conn}
use myrpc.Codec.ConnHooks.{ConnPlugin, run_conn_hooks}
use myrpc.Plugin.AppointCodec.{Transport, layers_of}
use myrpc.Client.Hooks.{err_post_connected}

pub record Client : Type 0 where
  pub codec_func : Option CodecFunc
  pub plugins : List ConnPlugin
  pub tls : Bool
  pub http_path : Bytes
  pub max_try : ℤ

-- Dialling over a network, with or without TLS, and over KCP; the status that http.ReadResponse reads.
pub record Network : Type 0 where
  pub dial : Bool → Bytes → Bytes → Result Link
  pub dial_kcp : Bytes → Result Link
  pub transport : Transport
  pub read_response : CodecConn → Result Bytes × CodecConn

-- What `newInvoker` returns, and the connection that it opened: an invoker reads it from then on.
pub record Dialled : Type 0 where
  pub result : Result CodecConn
  pub conn : Option CodecConn

-- `init`; a nil container has no plugins.
abbrev pub codec_or : Option CodecFunc → CodecFunc
codec_or none = gob
codec_or (some f) = f

unfoldable pub init : Client → Client
init c = record c {
  codec_func = some (codec_or c.codec_func);
  max_try = if is_positive c.max_try then c.max_try else pos 3;
}

-- `doPostConnected`.
abbrev pub run_connected : List ConnPlugin → CodecConn → CodecConn × Option Error
run_connected = run_conn_hooks err_post_connected

abbrev pub dial_error : Bytes → Error
dial_error text = message (codes "dial error: " ++ text)

-- `(&net.OpError{Op: "dial-http", Net: network + " " + address, Err: err}).Error()`.
abbrev pub op_text : Bytes → Bytes → Error → Bytes
op_text network address e =
    codes "dial-http " ++ (network ++ codes " " ++ address) ++ codes ": " ++ error_text e

abbrev pub connected : Bytes
connected = codes "200 Connected to Go RPC"

abbrev pub not_opened : Bytes → Dialled
not_opened text = record { result = err (dial_error text); conn = none }

abbrev pub abandoned : Bytes → CodecConn → Dialled
abandoned text c = record { result = err (dial_error text); conn = some (close_codec_conn c) }

abbrev pub invoked : CodecConn → Dialled
invoked c = record { result = ok c; conn = some c }

-- `SetClientCodec(client.ClientCodecFunc)`, where there is no codec yet.
unfoldable pub with_codec : Client → CodecConn → CodecConn
unfolding set_client_codec
with_codec client c = elim c.codec [ none ↦ set_client_codec client.codec_func c | some _ ↦ c ]

-- The body of newXXXClient and of newKCPClient, which differ in the dial.
abbrev pub hooked : Client → CodecConn × Option Error → Dialled
hooked client (c, some e) = abandoned (error_text e) c
hooked client (c, none) = invoked (with_codec client c)

abbrev pub dialled : Client → Result Link → Dialled
dialled client (err e) = not_opened (error_text e)
dialled client (ok link) = hooked client (run_connected client.plugins (new_codec_conn link))

-- The default path is that of net/rpc.
abbrev pub http_request : Bytes → Bytes
http_request path =
    codes "CONNECT " ++ (if is_empty path then codes "/_goRPC_" else path) ++ codes " HTTP/1.0\n\n"

module _ (net : Network) where
  unfoldable pub new_xxx_client : Client → Bytes → Bytes → Dialled
  unfolding run_conn_hooks with_codec
  new_xxx_client client network address = dialled client (net.dial client.tls network address)

  unfoldable pub new_kcp_client : Client → Bytes → Dialled
  unfolding run_conn_hooks with_codec
  new_kcp_client client address = dialled client (net.dial_kcp address)

  -- The CONNECT request is written, whatever comes of it.
  abbrev pub http_requested : Bytes → CodecConn → CodecConn
  http_requested path c =
      let (n, e, l) = net.transport.write_through (layers_of c.layers) (http_request path) c.link in
      record c { link = l }

  abbrev pub http_answered : Bytes → Bytes → Result Bytes × CodecConn → Dialled
  http_answered network address (err e, c) = abandoned (op_text network address e) c
  http_answered network address (ok status, c) =
      if beq status connected
      then invoked c
      else abandoned
          (op_text network address (message (codes "unexpected HTTP response: " ++ status))) c

  abbrev pub http_hooked : Client → Bytes → Bytes → CodecConn × Option Error → Dialled
  http_hooked client network address (c, some e) = abandoned (op_text network address e) c
  http_hooked client network address (c, none) =
      http_answered network address
        (net.read_response (http_requested client.http_path (with_codec client c)))

  abbrev pub http_dialled : Client → Bytes → Bytes → Result Link → Dialled
  http_dialled client network address (err e) = not_opened (op_text network address e)
  http_dialled client network address (ok link) =
      http_hooked client network address (run_connected client.plugins (new_codec_conn link))

  unfoldable pub new_http_client : Client → Bytes → Bytes → Dialled
  unfolding run_conn_hooks with_codec
  new_http_client client network address =
      http_dialled client network address (net.dial client.tls network address)

  -- `newInvoker` of a client.
  unfoldable pub new_invoker : Client → Bytes → Bytes → Dialled
  unfolding new_xxx_client new_kcp_client new_http_client
  new_invoker client network address =
      if beq network (codes "http")
      then new_http_client client network address
      else if beq network (codes "kcp")
      then new_kcp_client client address
      else new_xxx_client client network address
