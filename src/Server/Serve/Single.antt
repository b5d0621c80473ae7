-- ===== src/Server/Serve/Single.antt =====
-- ServeRequest, which answers one request at once.
use myrpc.Base.{
  ℕ, ◌+◌, List, ◌∷◌, Bool, true, false, ◌≡◌, refl, arith, ap, ◌∙◌, if◌then◌else◌, ◌==◌, inl, inr,
  Option-cases,
}
use myrpc.Common.Errors.{error_text}
use myrpc.Common.Wire.{Request}
use myrpc.Server.Context.{Context, HeaderRead, header, Conn, Server}
use myrpc.Server.Requests.{Read, read_request}
use myrpc.Server.Requests.Frames.{Went}
use myrpc.Server.Requests.Reading.{Outcome, taken, ended, read_request-Outcome}
use myrpc.Server.Responses.{send_response, call}
use myrpc.Server.Responses.Once.{OneSent, send_response-OneSent, call-OneSent}
use myrpc.Server.Serve.{Serving, get_context, group_add, finish, served, serve_request}
use myrpc.Server.Serve.Conservation.{to_come, answered, Inv, Keeps, answered-OneSent}

module _ (server : Server) (a : ℕ) where
  -- A header was taken, and one response with its number was written.
  answered-Keeps :
      (s : Serving) (r : Read) (q : Request) (hs : List HeaderRead) (c : Conn) (x : Context)
      → Inv s
      → s.conn.headers ≡ header q ∷ hs
      → Went (record (s.conn) { headers = hs }) q r
      → OneSent r.conn r.ctx.req.seq c
      → Keeps a s (finish c x (group_add s))
  unfolding to_come
  answered-Keeps s r q hs c x inv read went sent =
      let more : answered a c.written ≡ (if q.seq == a then 1 else 0) + answered a s.conn.written =
        answered-OneSent server a r.conn c r.ctx.req.seq sent ∙ rw (went.req, went.reads.written) in
      let less : (if q.seq == a then 1 else 0) + to_come a c.headers ≡ to_come a s.conn.headers =
        rw (sent.headers, went.headers, read) in
      record {
        inv = record { writes = sent.writes; group = omega (arith, inv.group) };
        owed_lem = omega (arith, more, less);
      }

  served-Keeps :
      (s : Serving) (r : Read)
      → Inv s
      → Outcome server s.conn r
      → Keeps a s (served server r.err r (group_add s)).0
  unfolding to_come
  served-Keeps s r inv (ended halts e err reads left) =
      let same : to_come a r.conn.headers ≡ to_come a s.conn.headers = elim left [
        | inl none_read ↦ ap (to_come a) none_read
        | inr (bad, read) ↦ rw read
      ] in
      simp (err, halts)
        (record {
          inv = record { writes = reads.writes ∙ inv.writes; group = omega (arith, inv.group) };
          owed_lem = rw (reads.written, same);
        })
  served-Keeps s r inv (taken q hs read went) = elim (Option-cases r.err) [
    | inl fine ↦ simp fine (
        answered-Keeps s r q hs (call server r.conn r.ctx).0 (call server r.conn r.ctx).1 inv read
          went (call-OneSent server r.conn r.ctx (went.reads.writes ∙ inv.writes)))
    | inr (e, err) ↦
        simp (err, went.keep_reading, went.not_send)
          (answered-Keeps s r q hs (send_response server r.conn r.ctx (error_text e)).0
            (send_response server r.conn r.ctx (error_text e)).1 inv read went
            (send_response-OneSent server r.conn r.ctx (error_text e)
              (went.reads.writes ∙ inv.writes)))
  ]

-- On a connection whose codec does not fail on a write, and where the WaitGroup counts the requests in
-- flight: ServeRequest, whether or not the server runs, leaves as many of each request number among
-- the headers to come, the requests in flight and the responses written, taken together, and the
-- WaitGroup still counts the requests in flight.
pub serve_request-Keeps :
    (server : Server) (a : ℕ) (running : Bool) (s : Serving)
    → Inv s
    → Keeps a s (serve_request server running s).0
unfolding serve_request
serve_request-Keeps server a false s inv = record { inv = inv; owed_lem = refl }
serve_request-Keeps server a true s inv =
    let (x, s') = get_context s in
    let k =
      served-Keeps server a s' (read_request server s'.conn x)
        (record { writes = inv.writes; group = inv.group })
        (read_request-Outcome server s'.conn x) in
    record { inv = k.inv; owed_lem = k.owed_lem }
