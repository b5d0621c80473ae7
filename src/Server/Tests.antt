-- ===== src/Server/Tests.antt =====
-- A server with one service, whose connection brings two requests and then ends.
use myrpc.Base.{
  length, false, Bytes, codes, beq, List, [], ◌∷◌, Option, none, some, true, ◌≡◌, refl, pos, arith,
  map,
}
use myrpc.Common.Errors.{Error, message}
use myrpc.Server.Context.{
  find_service, Query, Context, Called, replied, failed, Server, header, decoded, Conn,
}
use myrpc.Server.Hooks.{run_hooks, run_body_hooks, run_reply_hooks}
use myrpc.Server.Requests.{read_request_body, read_request}
use myrpc.Server.Requests.Reading.{Outcome, read_request-Outcome}
use myrpc.Server.Responses.{send_response, run_method, call}
use myrpc.Server.Responses.Answers.{Added, IsWellTyped, send_response-Added}
use myrpc.Server.Responses.RoundTrip.{Sent, seen, call-Sent}
use myrpc.Server.Serve.{Serving, new_context, Event, round, answers, step, run, serve_request}
use myrpc.Server.Serve.Single.{serve_request-Keeps}
use myrpc.Server.Serve.Conservation.{Keeps, run-Keeps}
use myrpc.Server.Serve.Ends.{repeat, IsCounted, run_ends}

-- It echoes what it gets, and refuses an empty argument.
abbrev echo : Bytes → Context → Called
echo [] x = failed [] (message (codes "nothing to say"))
echo (b ∷ text) x = replied (b ∷ text)

abbrev parse_path : Bytes → Bytes × Query × Option Error
parse_path path = (path, [], none)

abbrev echo_server : Server
echo_server = record {
  timeout = pos 0;
  read_timeout = pos 5;
  write_timeout = pos 5;
  plugins = [];
  services = (codes "/echo", record { plugins = []; method = echo }) ∷ [];
  uri_parse = parse_path;
}

abbrev echo_conn : Conn
echo_conn = record {
  headers =
      header (record { service_method = codes "/echo"; seq = 1 })
      ∷ header (record { service_method = codes "/nowhere"; seq = 2 })
      ∷ [];
  bodies = decoded (codes "hi") ∷ decoded (codes "ho") ∷ [];
  writes = [];
  written = [];
  deadlines = [];
  closed = 0;
}

-- The context of a request that was read.
abbrev echo_context : Context
echo_context = record new_context {
  req = record { service_method = codes "/echo"; seq = 1 };
  service = some (codes "/echo");
  argv = some (codes "hi");
  rpc_error_type = pos 4;
}

abbrev serving : Serving
serving = record { conn = echo_conn; in_flight = []; pool = []; call_group = 0; looping = true }

call-Sent_example :
    Sent echo_conn echo_context
      (seen (run_method echo_server echo_context))
      (call echo_server echo_conn echo_context).0
unfolding find_service beq
call-Sent_example = call-Sent echo_server echo_conn echo_context tt tt refl refl

send_response-Added_example :
    Added echo_server
      (λ r.
        (r.seq ≡ echo_context.req.seq)
        × (r.service_method ≡ echo_context.req.service_method)
        × IsWellTyped r)
      echo_conn
      (send_response echo_server echo_conn echo_context (codes "no")).0
send_response-Added_example =
    send_response-Added echo_server echo_conn echo_context (codes "no") refl
      (4, refl, omega arith, omega arith)

read_request-Outcome_example :
    Outcome echo_server echo_conn (read_request echo_server echo_conn new_context)
read_request-Outcome_example = read_request-Outcome echo_server echo_conn new_context

abbrev history : List Event
history = round ∷ round ∷ answers 0 ∷ round ∷ []

-- The unknown service is refused before the first request is answered, and then the connection ends.
history_written : map (λ w. w.0.seq) (run echo_server serving history).conn.written ≡ 1 ∷ 2 ∷ []
unfolding run step read_request run_hooks find_service beq read_request_body run_body_hooks call
    run_reply_hooks
history_written = refl

run-Keeps_example : Keeps 1 serving (run echo_server serving history)
run-Keeps_example = run-Keeps echo_server 1 serving history (record { writes = refl; group = refl })

serve_request-Keeps_example : Keeps 1 serving (serve_request echo_server true serving).0
serve_request-Keeps_example =
    serve_request-Keeps echo_server 1 true serving (record { writes = refl; group = refl })

-- An answer in between, of a connection whose first write fails.
abbrev failing : Serving
failing = record serving {
  conn = record echo_conn { writes = some (message (codes "broken pipe")) ∷ [] };
}

run_ends_example :
    let looped = run echo_server failing history in
    let last = run echo_server looped (repeat (length looped.in_flight) (answers 0)) in
    (looped.looping ≡ false)
    × IsCounted looped
    × (last.looping ≡ false)
    × (last.in_flight ≡ [])
    × (last.call_group ≡ 0)
run_ends_example = run_ends echo_server failing history refl (omega arith)
