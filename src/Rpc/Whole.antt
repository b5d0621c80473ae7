-- ===== src/Rpc/Whole.antt =====
-- A call from end to end: Go, the connection's loop, the method, its answer, and the client's `input`.
use myrpc.Base.{
  ℕ, Bytes, List, [], ◌∷◌, Option, none, some, Bool, true, false, ◌||◌, ◌≡◌, refl, sym, subst, ap,
  ◌∙◌, All, arith, if◌then◌else◌, is_empty,
}
use myrpc.Common.Errors.{error_text}
use myrpc.Common.ErrorTypes.{RpcError, new_rpc_error, error_type_server_service}
use myrpc.Common.Wire.{Request, Response}
use myrpc.Client.Pending.{lookup, insert, erase}
use myrpc.Client.Invoker.{
  Invoker, go, send_begin, send_end, receive, parse_response_error, new_call, make_chan,
}
use myrpc.Client.Invoker as Client
use myrpc.Client.Invoker.Behaviour.{Answered, Finished, receive_lem}
use myrpc.Server.Context.{
  Context, Plugin, Query, Service, Server, Reply, Called, replied, failed, panicked, find_service,
  HeaderRead, header, BodyRead, decoded, invalid_request, value,
}
use myrpc.Server.Responses.{run_method}
use myrpc.Server.Responses.RoundTrip.{client_reads, seen, NoPreWrite, call-Sent}
use myrpc.Server.Serve.{
  Serving, pooled, get_context, group_add, dispatch, serve_round, round, answers, step, run,
}
use myrpc.Rpc.Reads.{
  All_map, plugins_lem, read_context, read_deadlines, read_deadlines-Same, read_request_lem,
}
use myrpc.Rpc.{IsPlain, body_of, Returned, FailedWith}

lookup-insert : (k c : ℕ) (m : List (ℕ × ℕ)) → lookup k (insert k c m) ≡ some c
lookup-insert k c [] = ground arith
lookup-insert k c (e ∷ m) = ground (arith, lookup-insert k c m)

-- The request that the client has encoded.
abbrev pub request_of : Invoker → Request
request_of c = record { service_method = c.request_method; seq = c.request_seq }

-- A context of the pool carries no error.
abbrev pub IsClean : Context → Type 0
IsClean x = x.resp.error ≡ []

pooled-IsClean : (pool : List Context) → All IsClean pool → IsClean (pooled pool).0
pooled-IsClean [] h = refl
pooled-IsClean (x ∷ xs) h = h.0

if_holds : {A : Type 0} → (b : Bool) (s t : A) → b ≡ true → (if b then s else t) ≡ s
if_holds b s t h = rw h refl

-- What the client makes of a response to a method that failed with the text `m`.
returned_failed :
    (m v text : Bytes) (reply : Bytes) (n : ℕ) (s t : Invoker)
    → let sent : Option RpcError × Reply =
        if is_empty m
        then (none, value v)
        else (some (new_rpc_error error_type_server_service m), invalid_request) in
      client_reads text ≡ sent.0
      → Answered text (body_of sent.1) n s t
      → (s.calls n).error ≡ none
      → (s.calls n).reply ≡ reply
      → FailedWith m v reply (t.calls n)
unfolding parse_response_error
returned_failed [] v [] reply n s t reads a fresh old = (a.1 ∙ fresh, a.0)
returned_failed [] v (b ∷ text) reply n s t reads a fresh old = cc
returned_failed (b ∷ m) v [] reply n s t reads a fresh old = cc
returned_failed (b ∷ m) v (d ∷ text) reply n s t reads a fresh old = (a.0 ∙ reads, a.1 ∙ old)

-- What the client makes of a response that carries what the method did.
returned :
    (did : Called) (text : Bytes) (reply : Bytes) (n : ℕ) (s t : Invoker)
    → client_reads text ≡ (seen did).0
    → Answered text (body_of (seen did).1) n s t
    → (s.calls n).error ≡ none
    → (s.calls n).reply ≡ reply
    → Returned did reply (t.calls n)
unfolding parse_response_error
returned (replied v) [] reply n s t reads a fresh old = (a.1 ∙ fresh, a.0)
returned (replied v) (b ∷ text) reply n s t reads a fresh old = cc
returned (failed v e) text reply n s t reads a fresh old =
    returned_failed (error_text e) v text reply n s t reads a fresh old
returned panicked [] reply n s t reads a fresh old = cc
returned panicked (b ∷ text) reply n s t reads a fresh old = (a.0 ∙ reads, a.1 ∙ old)

-- A round of the loop that reads a request whole leaves it in flight.
round_lem :
    (server : Server) (s : Serving) (q : Request) (path args : Bytes) (query : Query)
    (service : Service) (hs : List HeaderRead) (bs : List BodyRead)
    → find_service path server.services ≡ some service
    → All IsPlain server.plugins
    → All IsPlain service.plugins
    → s.looping ≡ true
    → s.conn.headers ≡ header q ∷ hs
    → s.conn.bodies ≡ decoded args ∷ bs
    → server.uri_parse q.service_method ≡ (path, query, none)
    → let (x, s') = get_context s in
      step server s round ≡ record (group_add s') {
        conn = record (read_deadlines server s.conn) { headers = hs; bodies = bs };
        in_flight = read_context x q path query args ∷ s.in_flight;
      }
unfolding step serve_round
round_lem server s q path args query service hs bs there plain plain_service loops arrives body
      parsed =
    let (x, s') = get_context s in
    if_holds s.looping (serve_round server s) s loops
    ∙ ap (λ r. dispatch server r.err r (group_add s'))
        (read_request_lem server path query service there plain plain_service s.conn x q args hs bs
          arrives body parsed)

Answered-Finished :
    (text : Bytes) (body : Client.BodyRead) (n : ℕ) (s t : Invoker)
    → Answered text body n s t
    → Finished n s t
Answered-Finished (b ∷ text) body n s t a = a.2
Answered-Finished [] (Client.decoded v) n s t a = a.3
Answered-Finished [] (Client.undecoded e) n s t a = a.2

-- On a running client, Go sends a request under a number of its own.
sent_request :
    (c c1 : Invoker) (m args reply : Bytes)
    → (c.shutdown || c.closing) ≡ false
    → go m args reply none c ≡ some c1
    → (lookup c1.request_seq c1.pending ≡ some c.next_call)
      × ((c1.calls c.next_call).error ≡ none)
      × ((c1.calls c.next_call).reply ≡ reply)
unfolding go send_begin
sent_request c c1 m args reply runs gone =
    let fresh = new_call m args reply c.next_chan (make_chan 10 c) in
    let begun : send_begin c.next_call fresh ≡ c1 = ground arith in
    subst
      (λ t.
        (lookup t.request_seq t.pending ≡ some c.next_call)
        × ((t.calls c.next_call).error ≡ none)
        × ((t.calls c.next_call).reply ≡ reply))
      begun (rw runs (lookup-insert c.seq c.next_call c.pending, ground arith, ground arith))

-- After one round of the loop and one answer, exactly one response is written ahead of the old ones,
-- and it completes the call `n` of `c1`, and no other, with what the method does in a context of that
-- path and query.
abbrev pub Completes :
    Invoker → ℕ → Bytes → Server → Serving → Bytes → Query → Bytes → Service → Type 0
Completes c1 n reply server s path query args service =
    let s' = run server s (round ∷ answers 0 ∷ []) in
    (x : Context) × (r : Response) × (body : Reply) × let c' =
        receive r (body_of body) (send_end c1.request_seq none c1) in
      (x.view.path ≡ path)
      × (x.view.query ≡ query)
      × (s'.conn.written ≡ (r, body) ∷ s.conn.written)
      × (s'.in_flight ≡ s.in_flight)
      × (c'.pending ≡ erase c1.request_seq c1.pending)
      × Finished n c1 c'
      × Returned (service.method args x) reply (c'.calls n)

-- A call from end to end, over a codec that does not fail and with plugins that have no hook before or
-- behind the reading of a request or before a response: on an invoker that is neither closed nor shut
-- down, Go registers a call and encodes a request. If a connection whose loop runs, and whose pooled
-- contexts carry no error, reads that request and its argument, and URIParse gives the path of a
-- registered service, then one round and one answer write one response, ahead of those before it, and
-- leave in flight what was there. The client that receives it takes the call out of its pending ones,
-- completes it and changes no other call. The call then holds what the method did with the argument, in
-- a context of that path and query: its reply; or an error of the service type with the method's text,
-- the reply as it was before, where that text is not empty; or the error of the panic type.
pub rpc_call :
    (c c1 : Invoker) (m args reply : Bytes) (server : Server) (s : Serving) (path : Bytes)
    (query : Query) (service : Service) (hs : List HeaderRead) (bs : List BodyRead)
    → (c.shutdown || c.closing) ≡ false
    → go m args reply none c ≡ some c1
    → find_service path server.services ≡ some service
    → All IsPlain server.plugins
    → All IsPlain service.plugins
    → s.looping ≡ true
    → All IsClean s.pool
    → s.conn.headers ≡ header (request_of c1) ∷ hs
    → s.conn.bodies ≡ decoded args ∷ bs
    → s.conn.writes ≡ []
    → server.uri_parse c1.request_method ≡ (path, query, none)
    → Completes c1 c.next_call reply server s path query args service
unfolding run step send_end
rpc_call c c1 m args reply server s path query service hs bs runs gone there plain plain_service
      loops clean arrives body ready parsed =
    let q = request_of c1 in
    let (x0, s0) = get_context s in
    let x = read_context x0 q path query args in
    let c2 = record (read_deadlines server s.conn) { headers = hs; bodies = bs } in
    let same = read_deadlines-Same server s.conn in
    let own = plugins_lem server path query service there plain plain_service x refl in
    let quiet = λ (ps : List Plugin) (h : All IsPlain ps).
      All_map IsPlain (λ p. p.pre_write_response ≡ none) ps (λ p h. h.pre_response) h in
    let read =
      round_lem server s q path args query service hs bs there plain plain_service loops arrives
        body parsed in
    let did : run_method server x ≡ service.method args x =
      ap (λ o. elim o [ none ↦ panicked | some s ↦ s.method args x ]) there in
    let (r, out, seq, _, reads) =
      call-Sent server c2 x (quiet server.plugins plain)
        (subst NoPreWrite (sym own) (quiet service.plugins plain_service)) (same.writes ∙ ready)
        (pooled-IsClean s.pool clean) in
    let body = (seen (run_method server x)).1 in
    let (found, fresh, old) = sent_request c c1 m args reply runs gone in
    let (answered, taken) =
      receive_lem (send_end q.seq none c1) r (body_of body) c.next_call
        (ap (λ k. lookup k c1.pending) seq ∙ found) in
    let c' = receive r (body_of body) (send_end q.seq none c1) in
    (
      x,
      r,
      body,
      (
        refl,
        refl,
        ap (λ s. (run server s (answers 0 ∷ [])).conn.written) read
            ∙ out
            ∙ ap (◌∷◌ (r, body)) same.written,
        ap (λ s. (run server s (answers 0 ∷ [])).in_flight) read,
        taken ∙ ap (λ k. erase k c1.pending) seq,
        Answered-Finished r.error (body_of body) c.next_call (send_end q.seq none c1) c' answered,
        subst (λ did. Returned did reply (c'.calls c.next_call)) did
            (returned (run_method server x) r.error reply c.next_call (send_end q.seq none c1) c'
              reads answered fresh old),
      ),
    )
