-- ===== src/Server/Requests.antt =====
-- Reading a request: readRequestHeader and readRequestBody of server/server_context.go, and
-- readRequest of server/server.go.
pub mod Frames
pub mod Reading
use myrpc.Base.{
  ℕ, Bytes, codes, beq, is_empty, List, [], ◌∷◌, ◌++◌, Option, none, some, Bool, true, false, ℤ,
  is_positive, if◌then◌else◌, not,
}
use myrpc.Common.Errors.{Error, eof, unexpected_eof, message, error_text, new_error}
use myrpc.Common.ErrorTypes.{
  ErrorType, string_of_type, error_type_server_pre_read_request_header,
  error_type_server_read_request_header, error_type_server_invalid_service_method,
  error_type_server_not_found_service, error_type_server_post_read_request_header,
  error_type_server_pre_read_request_body, error_type_server_read_request_body,
  error_type_server_post_read_request_body, error_type_server_service_panic,
  error_type_server_service, error_type_server_pre_write_response, error_type_server_write_response,
}
use myrpc.Common.Wire.{Request, Response}
use myrpc.Server.Context.{
  Context, View, Query, Plugin, Reply, value, invalid_request, null, Called, replied, failed,
  panicked, Service, Server, find_service, Deadline, both, for_reading, for_writing, HeaderRead,
  header, no_header, BodyRead, decoded, undecoded, Conn, next_header, next_body, write,
}
use myrpc.Server.Hooks.{
  do_pre_read_request_header, do_post_read_request_header, do_pre_read_request_body,
  do_post_read_request_body, do_pre_write_response, do_post_write_response,
}

-- `SetDeadline(time.Now().Add(d))` where a timeout is set.
abbrev pub set_deadline : ℤ → Deadline → Conn → Conn
set_deadline timeout d c =
    if is_positive timeout then record c { deadlines = d ∷ c.deadlines } else c

-- The results of the functions that read, with the connection and the context that they leave.
pub record Read : Type 0 where
  pub conn : Conn
  pub ctx : Context
  pub keep_reading : Bool
  pub not_send : Bool
  pub err : Option Error

abbrev pub with_type : ErrorType → Context → Context
with_type t x = record x { rpc_error_type = t }

abbrev pub stop_reading : Conn → Context → Bool → Error → Read
stop_reading c x not_send e = record {
  conn = c;
  ctx = x;
  keep_reading = false;
  not_send = not_send;
  err = some e;
}

abbrev pub refuse : Conn → Context → ErrorType → Error → Read
refuse c x t e = record {
  conn = c;
  ctx = with_type t x;
  keep_reading = true;
  not_send = false;
  err = some e;
}

abbrev pub proceed : Conn → Context → Read
proceed c x = record { conn = c; ctx = x; keep_reading = true; not_send = false; err = none }

-- The results of the stages of `readRequestBody`: connection, context, body and error.
abbrev pub BodyState : Type 0
BodyState = Conn × Context × Bytes × Option Error

module _ (server : Server) where
  -- `readRequestHeader` from the lookup of the service on.
  abbrev pub found : Option Service → Conn → Context → Read
  found none c x =
      refuse c (record x { service = none }) error_type_server_not_found_service
        (new_error (codes "can't find service '" ++ (x.view.path ++ codes "'")))
  found (some _) c x = proceed c (record x { service = some x.view.path })

  abbrev pub find : Conn → Context → Read
  find c x = found (find_service x.view.path server.services) c x

  -- … from the result of the hooks after the header on.
  abbrev pub post_header : Conn → Context × Option Error → Read
  post_header c (x, none) = find c x
  post_header c (x, some e) = refuse c x error_type_server_post_read_request_header e

  -- … from the result of URIParse on.
  abbrev pub method_parsed : Conn → Context → Bytes × Query × Option Error → Read
  method_parsed c x (path, query, none) = post_header c (
      do_post_read_request_header server.plugins
        (record x { view = record (x.view) { path = path; query = query } }))
  method_parsed c x (path, query, some e) =
      refuse c (record x { view = record (x.view) { path = path; query = query } })
        error_type_server_invalid_service_method (new_error (error_text e))

  abbrev pub parse_method : Conn → Context → Read
  parse_method c x = method_parsed c x (server.uri_parse x.req.service_method)

  -- … with the outcome of `ReadRequestHeader`.
  abbrev pub header_read : HeaderRead → Conn → Context → Read
  header_read (header r) c x = parse_method c (record x { req = r })
  header_read (no_header eof) c x =
      stop_reading c (with_type error_type_server_read_request_header x) true eof
  header_read (no_header unexpected_eof) c x =
      stop_reading c (with_type error_type_server_read_request_header x) true unexpected_eof
  header_read (no_header (message m)) c x =
      stop_reading c (with_type error_type_server_read_request_header x) false
        (new_error (codes "ReadRequestHeader: " ++ m))

  -- … from the result of the hooks before the header on.
  abbrev pub pre_header : Conn → Context × Option Error → Read
  pre_header c (x, none) = header_read (next_header c).0 (next_header c).1 x
  pre_header c (x, some e) =
      stop_reading c (with_type error_type_server_pre_read_request_header x) false e

  unfoldable pub read_request_header : Conn → Context → Read
  read_request_header c x =
      pre_header
        (set_deadline server.read_timeout (for_reading server.read_timeout)
          (set_deadline server.timeout (both server.timeout) c))
        (do_pre_read_request_header server.plugins x)

  abbrev pub service_plugins : Context → List Plugin
  service_plugins x = elim x.service [
    | none ↦ []
    | some key ↦ elim (find_service key server.services) [ none ↦ [] | some s ↦ s.plugins ]
  ]

  -- The service's hooks after the body, and then the server's.
  abbrev pub post_body_server : Conn → Context × Bytes × Option Error → BodyState
  post_body_server c (x, body, none) = (c, x, body, none)
  post_body_server c (x, body, some e) =
      (c, with_type error_type_server_post_read_request_body x, body, some e)

  abbrev pub post_body : Conn → Context × Bytes × Option Error → BodyState
  post_body c (x, body, none) = post_body_server c (do_post_read_request_body server.plugins x body)
  post_body c (x, body, some e) =
      (c, with_type error_type_server_post_read_request_body x, body, some e)

  -- The outcome of the codec's `ReadRequestBody`.
  abbrev pub body_read : BodyRead → Conn → Context → Bytes → BodyState
  body_read (decoded b) c x body = post_body c (do_post_read_request_body (service_plugins x) x b)
  body_read (undecoded e) c x body = (
    c,
    with_type error_type_server_read_request_body x,
    body,
    some (new_error (codes "ReadRequestBody: " ++ error_text e)),
  )

  -- The server's hooks before the body, and then the service's.
  abbrev pub pre_body_service : Conn → Context × Bytes × Option Error → BodyState
  pre_body_service c (x, body, none) = body_read (next_body c).0 (next_body c).1 x body
  pre_body_service c (x, body, some e) =
      (c, with_type error_type_server_pre_read_request_body x, body, some e)

  abbrev pub pre_body : Conn → Context × Bytes × Option Error → BodyState
  pre_body c (x, body, none) =
      pre_body_service c (do_pre_read_request_body (service_plugins x) x body)
  pre_body c (x, body, some e) =
      (c, with_type error_type_server_pre_read_request_body x, body, some e)

  unfoldable pub read_request_body : Conn → Context → Bytes → BodyState
  read_request_body c x body = pre_body c (do_pre_read_request_body server.plugins x body)

  -- `readRequest`; a new argument is empty.
  abbrev pub argument_read : BodyState → Read
  argument_read (c, x, argv, err) = record {
    conn = c;
    ctx = record x { argv = some argv };
    keep_reading = true;
    not_send = false;
    err = err;
  }

  -- A request that was refused behind its header leaves its body, which is discarded.
  abbrev pub after_header : Option Error → Read → Read
  after_header none r = argument_read (read_request_body r.conn r.ctx [])
  after_header (some e) r =
      if not r.keep_reading then r else record r { conn = (next_body r.conn).1 }

  unfoldable pub read_request : Conn → Context → Read
  unfolding read_request_header
  read_request c x = let r = read_request_header c x in after_header r.err r
