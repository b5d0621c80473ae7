-- ===== src/Rpc/Tests.antt =====
-- A client's call of a service that echoes what it gets, behind a call that still waits.
use myrpc.Base.{ℕ, ℕ_discrete, Bytes, codes, beq, [], ◌∷◌, Option, none, some, true, refl, pos}
use myrpc.Common.Errors.{message}
use myrpc.Client.Invoker.{Chan, Invoker, new_invoker, go, send_end}
use myrpc.Client.Invoker.Steps.{goes, sent, run}
use myrpc.Server.Context.{
  find_service, Plugin, Query, Context, Service, Called, replied, failed, Server, header, decoded,
}
use myrpc.Server.Uri.{uri_parse}
use myrpc.Server.Serve.{Serving, new_context}
use myrpc.Rpc.{IsPlain}
use myrpc.Rpc.Whole.{Completes, request_of, rpc_call}

abbrev no_chans : ℕ → Chan
no_chans _ = record { capacity = 0; queue = [] }

abbrev path : Bytes
path = codes "/test/echo"

-- An invoker with one pending call.
abbrev one_waits : Invoker
one_waits = run (new_invoker no_chans 0) (goes path (codes "first") [] none ∷ sent none ∷ [])

abbrev two_wait : Invoker
two_wait = run one_waits (goes path (codes "hi") (codes "old") none ∷ [])

-- A plugin without hooks.
abbrev plain : Plugin
plain = record {
  name = codes "plain";
  register = none;
  post_conn_accept = none;
  pre_read_request_header = none;
  post_read_request_header = none;
  pre_read_request_body = none;
  post_read_request_body = none;
  pre_write_response = none;
  post_write_response = none;
}

plain-IsPlain : IsPlain plain
plain-IsPlain = record {
  pre_header = refl;
  post_header = refl;
  pre_body = refl;
  post_body = refl;
  pre_response = refl;
}

-- It echoes what it gets, and refuses an empty argument.
abbrev echo : Bytes → Context → Called
echo [] x = failed [] (message (codes "nothing to say"))
echo (b ∷ text) x = replied (b ∷ text)

abbrev echo_service : Service
echo_service = record { plugins = plain ∷ []; method = echo }

-- `url.Parse` of plain paths.
abbrev parse_path : Bytes → Option (Bytes × Query)
parse_path text = some (text, [])

abbrev server : Server
server = record {
  timeout = pos 5;
  read_timeout = pos 0;
  write_timeout = pos 5;
  plugins = plain ∷ [];
  services = (codes "/other", echo_service) ∷ (path, echo_service) ∷ [];
  uri_parse = uri_parse parse_path;
}

abbrev serving : Serving
serving = record {
  conn = record {
    headers = header (request_of two_wait) ∷ [];
    bodies = decoded (codes "hi") ∷ [];
    writes = [];
    written = [];
    deadlines = [];
    closed = 0;
  };
  in_flight = [];
  pool = new_context ∷ [];
  call_group = 0;
  looping = true;
}

rpc_call_example :
    Completes two_wait 1 (codes "old") server serving path [] (codes "hi") echo_service
unfolding uri_parse find_service beq run go send_end ℕ_discrete
rpc_call_example =
    rpc_call one_waits two_wait path (codes "hi") (codes "old") server serving path [] echo_service
      [] [] refl refl refl (plain-IsPlain, tt) (plain-IsPlain, tt) refl (refl, tt) refl refl refl
      refl
