-- ===== src/Server/Serve/Conservation.antt =====
-- What the loop of a connection owes: the requests that are read, being answered and answered.
use myrpc.Base.{
  ℕ, zero, suc, ◌+◌, List, [], ◌∷◌, none, some, Bool, true, false, ◌≡◌, refl, arith, ap, ◌∙◌,
  if◌then◌else◌, ◌==◌, inl, inr, ◌⊎◌, Option-cases, length,
}
use myrpc.Common.Errors.{Error, error_text}
use myrpc.Common.Wire.{Request, Response}
use myrpc.Server.Context.{Context, Reply, HeaderRead, header, no_header, Conn, Server}
use myrpc.Server.Requests.{Read, read_request}
use myrpc.Server.Requests.Frames.{Reads, Went}
use myrpc.Server.Requests.Reading.{Outcome, taken, ended, read_request-Outcome}
use myrpc.Server.Responses.{send_response, call}
use myrpc.Server.Responses.Once.{OneSent, send_response-OneSent, call-OneSent}
use myrpc.Server.Serve.{
  Serving, pick, get_context, group_add, close_conn, dispatch, serve_round, answer_picked, Event,
  round, stops, answers, step, run,
}

-- How often the number `a` is among the headers to come, the responses written and the requests in
-- flight.
unfoldable pub to_come : ℕ → List HeaderRead → ℕ
to_come a [] = 0
to_come a (header q ∷ hs) = (if q.seq == a then 1 else 0) + to_come a hs
to_come a (no_header e ∷ hs) = to_come a hs

unfoldable pub answered : ℕ → List (Response × Reply) → ℕ
answered a [] = 0
answered a ((r, body) ∷ rest) = (if r.seq == a then 1 else 0) + answered a rest

unfoldable pub in_work : ℕ → List Context → ℕ
in_work a [] = 0
in_work a (x ∷ xs) = (if x.req.seq == a then 1 else 0) + in_work a xs

abbrev pub owed : ℕ → Serving → ℕ
owed a s = to_come a s.conn.headers + in_work a s.in_flight + answered a s.conn.written

-- The codec does not fail on a write, and the WaitGroup counts the requests in flight.
pub record Inv (s : Serving) : Type 0 where
  pub writes : s.conn.writes ≡ []
  pub group : s.call_group ≡ length s.in_flight

-- `s'` keeps the invariant and owes what `s` owes.
pub record Keeps (a : ℕ) (s s' : Serving) : Type 0 where
  pub inv : Inv s'
  pub owed_lem : owed a s' ≡ owed a s

module _ (server : Server) (a : ℕ) where
  pub answered-OneSent :
      (c c' : Conn) (seq : ℕ)
      → OneSent c seq c'
      → answered a c'.written ≡ (if seq == a then 1 else 0) + answered a c.written
  unfolding answered
  answered-OneSent c c' seq sent = rw (sent.written, answered, sent.seq_lem)

  -- A request was taken, and answered at once because of an error.
  refused-Keeps :
      (s : Serving) (r : Read) (e : Error) (q : Request) (hs : List HeaderRead)
      → Inv s
      → s.conn.headers ≡ header q ∷ hs
      → Went (record (s.conn) { headers = hs }) q r
      → r.err ≡ some e
      → Keeps a s (dispatch server r.err r (group_add s))
  unfolding to_come
  refused-Keeps s r e q hs inv read went err =
      let sent =
        send_response-OneSent server r.conn r.ctx (error_text e) (went.reads.writes ∙ inv.writes) in
      let c' = (send_response server r.conn r.ctx (error_text e)).0 in
      let more : answered a c'.written ≡ (if q.seq == a then 1 else 0) + answered a s.conn.written =
        answered-OneSent r.conn c' r.ctx.req.seq sent ∙ rw (went.req, went.reads.written) in
      let less : (if q.seq == a then 1 else 0) + to_come a c'.headers ≡ to_come a s.conn.headers =
        rw (sent.headers, went.headers, read) in
      simp (err, went.keep_reading, went.not_send)
        (record {
          inv = record { writes = sent.writes; group = omega (arith, inv.group) };
          owed_lem = omega (arith, more, less);
        })

  accepted-Keeps :
      (s : Serving) (r : Read) (q : Request) (hs : List HeaderRead)
      → Inv s
      → s.conn.headers ≡ header q ∷ hs
      → Went (record (s.conn) { headers = hs }) q r
      → r.err ≡ none
      → Keeps a s (dispatch server r.err r (group_add s))
  unfolding to_come in_work
  accepted-Keeps s r q hs inv read went err =
      let kept : (if q.seq == a then 1 else 0) + to_come a r.conn.headers
          ≡ to_come a s.conn.headers =
        rw (went.headers, read) in
      let more : in_work a (r.ctx ∷ s.in_flight)
          ≡ (if q.seq == a then 1 else 0) + in_work a s.in_flight =
        rw went.req in
      let written = ap (answered a) went.reads.written in
      rw err (record {
        inv = record { writes = went.reads.writes ∙ inv.writes; group = omega (arith, inv.group) };
        owed_lem = omega (arith, kept, more, written);
      })

  ended-Keeps :
      (s : Serving) (r : Read) (e : Error)
      → Inv s
      → r.keep_reading ≡ false
      → r.err ≡ some e
      → Reads s.conn r.conn
      → (r.conn.headers ≡ s.conn.headers)
        ⊎ ((e : Error) × (s.conn.headers ≡ no_header e ∷ r.conn.headers))
      → Keeps a s (dispatch server r.err r (group_add s))
  unfolding to_come
  ended-Keeps s r e inv halts err reads left =
      let same : to_come a r.conn.headers ≡ to_come a s.conn.headers = elim left [
        | inl none_read ↦ ap (to_come a) none_read
        | inr (bad, read) ↦ rw read
      ] in
      simp (err, halts)
        (record {
          inv = record { writes = reads.writes ∙ inv.writes; group = omega (arith, inv.group) };
          owed_lem = rw (reads.written, same);
        })

  read-Keeps :
      (s : Serving) (r : Read)
      → Inv s
      → Outcome server s.conn r
      → Keeps a s (dispatch server r.err r (group_add s))
  read-Keeps s r inv (ended halts e err reads left) = ended-Keeps s r e inv halts err reads left
  read-Keeps s r inv (taken q hs read went) = elim (Option-cases r.err) [
    | inl fine ↦ accepted-Keeps s r q hs inv read went fine
    | inr (e, err) ↦ refused-Keeps s r e q hs inv read went err
  ]

  pub serve_round-Keeps : (s : Serving) → Inv s → Keeps a s (serve_round server s)
  unfolding serve_round
  serve_round-Keeps s inv =
      let (x, s') = get_context s in
      let k =
        read-Keeps s' (read_request server s.conn x)
          (record { writes = inv.writes; group = inv.group })
          (read_request-Outcome server s.conn x) in
      record { inv = k.inv; owed_lem = k.owed_lem }

  Keeps-refl : (s : Serving) → Inv s → Keeps a s s
  Keeps-refl s inv = record { inv = inv; owed_lem = refl }

  pick_lem :
      (i : ℕ) (xs : List Context) (x : Context) (rest : List Context)
      → pick i xs ≡ some (x, rest)
      → (length xs ≡ suc (length rest))
        × (in_work a xs ≡ (if x.req.seq == a then 1 else 0) + in_work a rest)
  unfolding in_work
  pick_lem i [] x rest e = ground arith
  pick_lem zero (y ∷ ys) x rest e = ground arith
  pick_lem (suc i) (y ∷ ys) x rest e = elim (Option-cases (pick i ys)) [
    | inl nothing ↦ ground arith
    | inr ((z, zs), p) ↦ let ih = pick_lem i ys z zs p in ground arith
  ]

  answer-Keeps :
      (s : Serving) (i : ℕ) → Inv s → Keeps a s (answer_picked server (pick i s.in_flight) s)
  answer-Keeps s i inv = elim (Option-cases (pick i s.in_flight)) [
    | inl nothing ↦ rw nothing (Keeps-refl s inv)
    | inr ((x, rest), e) ↦
        let sent = call-OneSent server s.conn x inv.writes in
        let c' = (call server s.conn x).0 in
        let more = answered-OneSent s.conn c' x.req.seq sent in
        let (shorter, less) = pick_lem i s.in_flight x rest e in
        let same = ap (to_come a) sent.headers in
        rw e (record {
          inv = record { writes = sent.writes; group = omega (arith, inv.group, shorter) };
          owed_lem = omega (arith, more, less, same);
        })
  ]

  close_conn-Keeps : (s : Serving) → Inv s → Keeps a s (close_conn s)
  close_conn-Keeps s inv = record {
    inv = record { writes = inv.writes; group = inv.group };
    owed_lem = refl;
  }

  guard-Keeps : (b : Bool) (s t : Serving) → Inv s → Keeps a s t → Keeps a s (if b then t else s)
  guard-Keeps true s t inv k = k
  guard-Keeps false s t inv k = Keeps-refl s inv

  step-Keeps : (s : Serving) (e : Event) → Inv s → Keeps a s (step server s e)
  unfolding step
  step-Keeps s round inv = guard-Keeps s.looping s _ inv (serve_round-Keeps s inv)
  step-Keeps s stops inv = guard-Keeps s.looping s _ inv (close_conn-Keeps s inv)
  step-Keeps s (answers i) inv = answer-Keeps s i inv

-- On a connection whose codec does not fail on a write, and where the WaitGroup counts the requests in
-- flight: after any rounds of the loop, stops and answers, in any order and with any hooks, services
-- and readings, every request number stands as often among the headers to come, the requests in
-- flight and the responses written, taken together, as before; and the WaitGroup still counts the
-- requests in flight.
pub run-Keeps :
    (server : Server) (a : ℕ) (s : Serving) (es : List Event) → Inv s → Keeps a s (run server s es)
unfolding run
run-Keeps server a s [] inv = Keeps-refl server a s inv
run-Keeps server a s (e ∷ es) inv =
    let k = step-Keeps server a s e inv in
    let rest = run-Keeps server a (step server s e) es k.inv in
    record { inv = rest.inv; owed_lem = rest.owed_lem ∙ k.owed_lem }
