-- ===== src/Server/Responses/RoundTrip.antt =====
-- From the service's method to the client: what `call` writes, read by the client's decoding of errors.
use myrpc.Base.{
  ℕ, Bytes, codes, is_empty, List, [], ◌∷◌, Option, none, some, ◌≡◌, refl, arith, All,
  if◌then◌else◌, ℤ, pos, ◌<◌, ap, ◌∙◌,
}
use myrpc.Common.Errors.{error_text}
use myrpc.Common.ErrorTypes.{
  RpcError, new_rpc_error, error_type_server_service, error_type_server_service_panic,
}
use myrpc.Common.Wire.{Response}
use myrpc.Client.Invoker.{parse_response_error}
use myrpc.Server.Context.{
  Context, Plugin, Reply, value, invalid_request, Called, replied, failed, panicked, Server, Conn,
  Deadline, both, for_writing,
}
use myrpc.Server.Hooks.{run_reply_hooks}
use myrpc.Server.Requests.{set_deadline, with_type, service_plugins}
use myrpc.Server.Responses.Answers.{post_write-conn, set_deadline-written, prefix_type-same}
use myrpc.Server.Responses.{
  prefix_type, reply_of, pre_write, write_response, send_response, run_method, answer_called, call,
}

-- What the client makes of a response's error text.
abbrev pub client_reads : Bytes → Option RpcError
client_reads [] = none
client_reads (b ∷ text) = some (parse_response_error (b ∷ text))

-- What a client should see of what a method did: its reply, or an error of the right type. An error
-- without a text is not seen: the reply is taken for a success.
abbrev pub seen : Called → Option RpcError × Reply
seen (replied v) = (none, value v)
seen (failed v e) =
    if is_empty (error_text e)
    then (none, value v)
    else (some (new_rpc_error error_type_server_service (error_text e)), invalid_request)
seen panicked =
    (some (new_rpc_error error_type_server_service_panic (codes "Service Panic!")), invalid_request)

-- No plugin has a hook before responses.
abbrev pub NoPreWrite : List Plugin → Type 0
NoPreWrite = All (λ p. p.pre_write_response ≡ none)

run_reply_hooks-none :
    (text : Bytes) (ps : List Plugin) (x : Context) (body : Reply)
    → NoPreWrite ps
    → run_reply_hooks (λ p. p.pre_write_response) text ps x body ≡ (x, body, none)
unfolding run_reply_hooks
run_reply_hooks-none text [] x body h = refl
run_reply_hooks-none text (p ∷ ps) x body h =
    rw (h.0, run_reply_hooks) (run_reply_hooks-none text ps x body h.1)

-- The response `r` and its body are all that was written, they carry the request's number and
-- method, and a client reads `e` from them.
abbrev pub Sent : Conn → Context → Option RpcError × Reply → Conn → Type 0
Sent c x (e, body) c' =
    (r : Response) × (c'.written ≡ (r, body) ∷ c.written)
    × (r.seq ≡ x.req.seq)
    × (r.service_method ≡ x.req.service_method)
    × (client_reads r.error ≡ e)

module _ (server : Server) (quiet : NoPreWrite server.plugins) where
  pre_write_quiet :
      (x : Context) (body : Reply)
      → NoPreWrite (service_plugins server x)
      → pre_write server x body ≡ (x, body)
  pre_write_quiet x body h = rw (
    run_reply_hooks-none _ server.plugins x body quiet,
    run_reply_hooks-none _ (service_plugins server x) x body h,
  )

  set_deadline-writes : (t : ℤ) (d : Deadline) (c : Conn) → (set_deadline t d c).writes ≡ c.writes
  set_deadline-writes t d c = ground arith

  -- With no hook and a codec that does not fail, the response goes out as it is.
  write_response_quiet :
      (c : Conn) (x : Context) (body : Reply)
      → NoPreWrite (service_plugins server x)
      → c.writes ≡ []
      → (write_response server c x body).0.written ≡ ((prefix_type x).resp, body) ∷ c.written
  unfolding write_response
  write_response_quiet c x body h ready =
      let c1 = set_deadline server.timeout (both server.timeout) c in
      let c2 = set_deadline server.write_timeout (for_writing server.write_timeout) c1 in
      let works : c2.writes ≡ [] =
        set_deadline-writes server.write_timeout (for_writing server.write_timeout) c1
        ∙ set_deadline-writes server.timeout (both server.timeout) c
        ∙ ready in
      let kept : c2.written ≡ c.written =
        set_deadline-written server server.write_timeout (for_writing server.write_timeout) c1
        ∙ set_deadline-written server server.timeout (both server.timeout) c in
      simp (pre_write_quiet x body h, works)
        (ap (λ c. c.written) (post_write-conn server _ _)
          ∙ ap (◌∷◌ ((prefix_type x).resp, body)) kept)

  send_response-Sent :
      (c : Conn) (x : Context) (b : ℕ) (m : Bytes) (n : ℕ)
      → NoPreWrite (service_plugins server x)
      → c.writes ≡ []
      → x.rpc_error_type ≡ pos n
      → n < 128
      → Sent c x
          (some (new_rpc_error (pos n) (b ∷ m)), invalid_request)
          (send_response server c x (b ∷ m)).0
  unfolding send_response parse_response_error
  send_response-Sent c x b m n h ready kind small =
      (_, write_response_quiet c _ invalid_request h ready, refl, refl, rw kind (ground arith))

  send_response-Sent_reply :
      (c : Conn) (x : Context) (v : Bytes)
      → NoPreWrite (service_plugins server x)
      → c.writes ≡ []
      → x.resp.error ≡ []
      → x.replyv ≡ some v
      → Sent c x (none, value v) (send_response server c x []).0
  unfolding send_response
  send_response-Sent_reply c x v h ready clean reply =
      let x1 : Context = record x {
        resp = record {
          service_method = x.req.service_method;
          seq = x.req.seq;
          error = x.resp.error;
        };
      } in
      let out = (prefix_type x1).resp in
      let same = prefix_type-same server x1 in
      (
        out,
        write_response_quiet c x1 (reply_of server x.replyv) h ready
            ∙ ap (λ o. (out, reply_of server o) ∷ c.written) reply,
        same.0,
        same.1,
        rw clean,
      )

  answer_called-Sent :
      (c : Conn) (x : Context) (did : Called)
      → NoPreWrite (service_plugins server x)
      → c.writes ≡ []
      → x.resp.error ≡ []
      → Sent c x (seen did) (answer_called server c x did).0
  answer_called-Sent c x (replied v) h ready clean =
      send_response-Sent_reply c (record x { replyv = some v }) v h ready clean refl
  answer_called-Sent c x (failed v e) h ready clean = failed-Sent (error_text e)
    where
      failed-Sent :
          (text : Bytes)
          → Sent c x
              (if is_empty text
                then (none, value v)
                else (some (new_rpc_error error_type_server_service text), invalid_request))
              (send_response server c
                (with_type error_type_server_service (record x { replyv = some v }))
                text).0
      failed-Sent [] = send_response-Sent_reply c _ v h ready clean refl
      failed-Sent (b ∷ m) = send_response-Sent c _ b m 10 h ready refl (omega arith)
  answer_called-Sent c x panicked h ready clean =
      send_response-Sent c _ _ _ 9 h ready refl (omega arith)

-- For a context without an error in its response, where neither the server's plugins nor those of
-- its service have a hook before responses and the codec does not fail: `call` writes one
-- response, with the request's number and service method, and the client reads from it what the
-- method did: its reply, an error of the service type with the method's text, or an error of the
-- panic type. An error whose text is empty reaches the client as a success with the reply.
pub call-Sent :
    (server : Server) (c : Conn) (x : Context)
    → NoPreWrite server.plugins
    → NoPreWrite (service_plugins server x)
    → c.writes ≡ []
    → x.resp.error ≡ []
    → Sent c x (seen (run_method server x)) (call server c x).0
unfolding call
call-Sent server c x quiet h ready clean =
    answer_called-Sent server quiet c x (run_method server x) h ready clean
