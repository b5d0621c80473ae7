-- ===== src/Server/Listen.antt =====
-- How connections come to ServeConn in server/server.go: the loop of serveListener, and ServeHTTP. What
-- the listener and the HTTP server give are parameters.
pub mod Accepts
mod Tests
use myrpc.Base.{Bytes, codes, beq, not, List, [], ◌∷◌, ◌++◌, Option, none, some, if◌then◌else◌}
use myrpc.Common.Errors.{Error, Result, ok, err}
use myrpc.Codec.Wire.{Link}
use myrpc.Codec.Conn.{CodecFunc, CodecConn, new_codec_conn, ensure_server_codec}
use myrpc.Codec.ConnHooks.{ConnPlugin, run_conn_hooks}
use myrpc.Plugin.AppointCodec.{Transport, layers_of}
use myrpc.Server.Hooks.{err_post_conn_accept}

-- The connections that ServeConn was started on, and those that a hook refused, newest first.
pub record Accepting : Type 0 where
  pub served : List CodecConn
  pub refused : List CodecConn

-- `doPostConnAccept`.
abbrev pub run_accepted : List ConnPlugin → CodecConn → CodecConn × Option Error
run_accepted = run_conn_hooks err_post_conn_accept

-- A connection after its hooks; ServeConn first gives it the codec of the server.
abbrev pub accept_hooked : CodecFunc → CodecConn × Option Error → Accepting → Accepting
accept_hooked default (c, some e) s = record s { refused = c ∷ s.refused }
accept_hooked default (c, none) s = record s { served = ensure_server_codec default c ∷ s.served }

-- The loop of `serveListener`, over what `Accept` gives: it returns at the first error.
unfoldable pub accept_loop :
    CodecFunc → List ConnPlugin → List (Result Link) → Accepting → Accepting
unfolding run_conn_hooks ensure_server_codec
accept_loop default ps [] s = s
accept_loop default ps (err e ∷ rest) s = s
accept_loop default ps (ok link ∷ rest) s =
    accept_loop default ps rest (accept_hooked default (run_accepted ps (new_codec_conn link)) s)

-- What ServeHTTP does with a request.
pub data HttpOutcome : Type 0 where
  not_allowed : Bytes → HttpOutcome
  not_hijacked : HttpOutcome
  hook_refused : CodecConn → HttpOutcome
  serves : CodecConn → HttpOutcome

module _ (transport : Transport) (default : CodecFunc) where
  abbrev pub http_response : Bytes
  http_response = codes "HTTP/1.0 200 Connected to Go RPC\n\n"

  abbrev pub http_accepted : CodecConn × Option Error → HttpOutcome
  http_accepted (c, some e) = hook_refused c
  http_accepted (c, none) =
      let (n, e, l) = transport.write_through (layers_of c.layers) http_response c.link in
      serves (ensure_server_codec default (record c { link = l }))

  abbrev pub hijacked : List ConnPlugin → Result Link → HttpOutcome
  hijacked ps (err e) = not_hijacked
  hijacked ps (ok link) = http_accepted (run_accepted ps (new_codec_conn link))

  -- `ServeHTTP`, by the method of the request and what `Hijack` gives.
  unfoldable pub serve_http : List ConnPlugin → Bytes → Result Link → HttpOutcome
  unfolding run_conn_hooks ensure_server_codec
  serve_http ps method hijack =
      if not (beq method (codes "CONNECT"))
      then not_allowed (codes "405 must CONNECT\n")
      else hijacked ps hijack
