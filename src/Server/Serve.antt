-- ===== src/Server/Serve.antt =====
-- ServeConn and ServeRequest of server/server.go: one connection's loop, and the goroutines that answer
-- its requests. The lock `sending` makes an answer one step; the pool of contexts is a list.
pub mod Conservation
pub mod Ends
pub mod Single
use myrpc.Base.{
  codes, ◌&&◌, ℕ, zero, suc, ◌+◌, ◌-◌, Bytes, List, [], ◌∷◌, Option, none, some, Bool, true, false,
  not, if◌then◌else◌, pos,
}
use myrpc.Common.Errors.{Error, message, error_text}
use myrpc.Server.Context.{Context, View, Conn, Server}
use myrpc.Server.Requests.{Read, read_request}
use myrpc.Server.Responses.{send_response, call}

-- A connection under service. `call_group` is what it adds to the server's WaitGroup.
pub record Serving : Type 0 where
  pub conn : Conn
  pub in_flight : List Context
  pub pool : List Context
  pub call_group : ℕ
  pub looping : Bool

-- `contextPool.New`.
abbrev pub new_context : Context
new_context = record {
  view = record { path = []; query = []; store = none };
  req = record { service_method = []; seq = 0 };
  resp = record { service_method = []; seq = 0; error = [] };
  service = none;
  argv = none;
  replyv = none;
  rpc_error_type = pos 0;
}

abbrev pub pooled : List Context → Context × List Context
pooled [] = (new_context, [])
pooled (x ∷ xs) = (x, xs)

-- `getContext`.
abbrev pub get_context : Serving → Context × Serving
get_context s =
    let (x, rest) = pooled s.pool in
    (record x { view = record (x.view) { store = some [] } }, record s { pool = rest })

-- `putContext`; the path and the error type stay as they are.
abbrev pub put_context : Context → Serving → Serving
put_context x s = record s {
  pool =
      record x {
        view = record (x.view) { query = []; store = none };
        req = record { service_method = []; seq = 0 };
        resp = record { service_method = []; seq = 0; error = [] };
        service = none;
        argv = none;
        replyv = none;
      }
      ∷ s.pool;
}

-- `callGroup.Add(1)` and `callGroup.Done()`.
abbrev pub group_add : Serving → Serving
group_add s = record s { call_group = suc s.call_group }

abbrev pub group_done : Serving → Serving
group_done s = record s { call_group = s.call_group - 1 }

-- `putContext(ctx)` and `callGroup.Done()`, with the connection as the answer left it.
abbrev pub finish : Conn → Context → Serving → Serving
finish c x s = group_done (put_context x (record s { conn = c }))

-- The end of ServeConn. What the codec reports for a write, behind the close too, is its parameter
-- `writes`.
abbrev pub close_conn : Serving → Serving
close_conn s = record s { looping = false; conn = record (s.conn) { closed = suc s.conn.closed } }

-- The `i`-th context of a list, and the others.
abbrev pub pick : ℕ → List Context → Option (Context × List Context)
pick i [] = none
pick zero (x ∷ xs) = some (x, xs)
pick (suc i) (x ∷ xs) = elim (pick i xs) [ none ↦ none | some (y, ys) ↦ some (y, x ∷ ys) ]

-- `round`: the loop finds the server running. `stops`: it finds it stopped. `answers i`: the `i`-th
-- goroutine runs.
pub data Event : Type 0 where
  round stops : Event
  answers : ℕ → Event

module _ (server : Server) where
  -- The branches after `readRequest`, with the error that it returned.
  abbrev pub dispatch : Option Error → Read → Serving → Serving
  dispatch none r s = record s { conn = r.conn; in_flight = r.ctx ∷ s.in_flight }
  dispatch (some e) r s =
      if r.keep_reading
      then if not r.not_send
        then (let (c, x) = send_response server r.conn r.ctx (error_text e) in finish c x s)
        else finish r.conn r.ctx s
      else close_conn (finish r.conn r.ctx s)

  -- One round of the loop, while the server runs.
  unfoldable pub serve_round : Serving → Serving
  serve_round s =
      let (x, s') = get_context s in
      let r = read_request server s'.conn x in dispatch r.err r (group_add s')

  -- The goroutine of a request that was read.
  abbrev pub answer_picked : Option (Context × List Context) → Serving → Serving
  answer_picked none s = s
  answer_picked (some (x, rest)) s =
      let (c, x') = call server s.conn x in finish c x' (record s { in_flight = rest })

  -- An event that is not possible changes nothing.
  unfoldable pub step : Serving → Event → Serving
  unfolding serve_round
  step s round = if s.looping then serve_round s else s
  step s stops = if s.looping then close_conn s else s
  step s (answers i) = answer_picked (pick i s.in_flight) s

  unfoldable pub run : Serving → List Event → Serving
  run s [] = s
  run s (e ∷ es) = run (step s e) es

  -- ServeRequest, from the result of `readRequest` on.
  abbrev pub served : Option Error → Read → Serving → Serving × Option Error
  served none r s = let (c, x) = call server r.conn r.ctx in (finish c x s, none)
  served (some e) r s =
      if r.keep_reading && not r.not_send
      then (let (c, x) = send_response server r.conn r.ctx (error_text e) in (finish c x s, some e))
      else (finish r.conn r.ctx s, some e)

  -- `ServeRequest`; `running` is what `isRunning` says.
  unfoldable pub serve_request : Bool → Serving → Serving × Option Error
  serve_request running s =
      if not running
      then (s, some (message (codes "rpc: server has stopped")))
      else (let (x, s') = get_context s in
          let r = read_request server s'.conn x in served r.err r (group_add s'))
