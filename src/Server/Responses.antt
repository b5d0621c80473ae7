-- ===== src/Server/Responses.antt =====
-- Answering a request: writeResponse of server/server_context.go, and call and sendResponse of
-- server/server.go.
pub mod Answers
pub mod RoundTrip
pub mod Once
use myrpc.Base.{
  ℕ, Bytes, codes, beq, is_empty, List, [], ◌∷◌, ◌++◌, Option, none, some, Bool, true, false, ℤ,
  is_positive, if◌then◌else◌, not,
}
use myrpc.Common.Errors.{Error, message, error_text, new_error}
use myrpc.Common.ErrorTypes.{
  ErrorType, string_of_type, error_type_server_service_panic, error_type_server_service,
  error_type_server_pre_write_response, error_type_server_write_response,
}
use myrpc.Common.Wire.{Request, Response}
use myrpc.Server.Context.{
  Context, View, Plugin, Reply, value, invalid_request, null, Called, replied, failed, panicked,
  Service, Server, find_service, Deadline, both, for_writing, Conn, write,
}
use myrpc.Server.Hooks.{do_pre_write_response, do_post_write_response}
use myrpc.Server.Requests.{set_deadline, with_type, service_plugins}

-- `ctx.resp.Error = text`.
abbrev pub set_error : Bytes → Context → Context
set_error text x = record x { resp = record (x.resp) { error = text } }

-- An error text goes out behind the byte of its type.
abbrev pub prefix_type : Context → Context
prefix_type x =
    if is_empty x.resp.error
    then x
    else set_error (string_of_type x.rpc_error_type ++ x.resp.error) x

module _ (server : Server) where
  -- The hooks before a response, of the server and then of the service. Their error replaces the body
  -- and the response's error.
  abbrev pub pre_write_failed : Context → Error → Context × Reply
  pre_write_failed x e =
      (set_error (error_text e) (with_type error_type_server_pre_write_response x), null)

  abbrev pub pre_write_done : Context × Reply × Option Error → Context × Reply
  pre_write_done (x, body, none) = (x, body)
  pre_write_done (x, body, some e) = pre_write_failed x e

  abbrev pub pre_write_service : Context × Reply × Option Error → Context × Reply
  pre_write_service (x, body, none) =
      pre_write_done (do_pre_write_response (service_plugins server x) x body)
  pre_write_service (x, body, some e) = pre_write_failed x e

  abbrev pub pre_write : Context → Reply → Context × Reply
  pre_write x body = pre_write_service (do_pre_write_response server.plugins x body)

  -- The hooks after a response, of the service and then of the server.
  abbrev pub post_write_server :
      Conn → Context × Reply × Option Error → Conn × Context × Option Error
  post_write_server c (x, body, some e) = (c, x, some e)
  post_write_server c (x, body, none) =
      let (x', _, err) = do_post_write_response server.plugins x body in (c, x', err)

  abbrev pub post_write : Conn → Context → Reply → Conn × Context × Option Error
  post_write c x body =
      post_write_server c (do_post_write_response (service_plugins server x) x body)

  -- `WriteResponse`; where the codec fails, its error goes out in a response of its own.
  abbrev pub write_done : Option Error × Conn → Context → Reply → Conn × Context × Option Error
  write_done (none, c) x body = post_write c x body
  write_done (some e, c) x body =
      let x' =
        set_error (string_of_type error_type_server_write_response ++ error_text e)
          (with_type error_type_server_write_response x) in
      (
        (write x'.resp invalid_request c).1,
        x',
        some (new_error (codes "WriteResponse: " ++ error_text e)),
      )

  abbrev pub write_body : Conn → Context → Reply → Conn × Context × Option Error
  write_body c x body = write_done (write x.resp body c) x body

  unfoldable pub write_response : Conn → Context → Reply → Conn × Context × Option Error
  write_response c x body =
      let c' =
        set_deadline server.write_timeout (for_writing server.write_timeout)
          (set_deadline server.timeout (both server.timeout) c) in
      let (x', body') = pre_write x body in write_body c' (prefix_type x') body'

  -- `sendResponse`. It reads the reply only where there is no error text; the log gets the error of
  -- `writeResponse`; a missing reply, on which the source panics, is nil here.
  abbrev pub reply_of : Option Bytes → Reply
  reply_of none = null
  reply_of (some v) = value v

  unfoldable pub send_response : Conn → Context → Bytes → Conn × Context
  unfolding write_response
  send_response c x errmsg =
      let x1 = record x {
        resp = record {
          service_method = x.req.service_method;
          seq = x.req.seq;
          error = if is_empty errmsg then x.resp.error else errmsg;
        };
      } in
      let reply = if is_empty errmsg then reply_of x.replyv else invalid_request in
      let (c', x', _) = write_response c x1 reply in (c', x')

  -- What the service's method does with the argument of the context.
  abbrev pub run_method : Context → Called
  run_method x = elim x.service [
    | none ↦ panicked
    | some key ↦ elim (find_service key server.services) [
      | none ↦ panicked
      | some s ↦ elim x.argv [ none ↦ panicked | some argv ↦ s.method argv x ]
    ]
  ]

  -- `call`, its recovery from a panic included.
  abbrev pub answer_called : Conn → Context → Called → Conn × Context
  answer_called c x (replied v) = send_response c (record x { replyv = some v }) []
  answer_called c x (failed v e) =
      send_response c (with_type error_type_server_service (record x { replyv = some v }))
        (error_text e)
  answer_called c x panicked =
      send_response c (with_type error_type_server_service_panic x) (codes "Service Panic!")

  unfoldable pub call : Conn → Context → Conn × Context
  unfolding send_response
  call c x = answer_called c x (run_method x)
