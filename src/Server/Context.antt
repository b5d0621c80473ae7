-- ===== src/Server/Context.antt =====
-- The context of a request (server/server_context.go), the server's settings that it reads, and the
-- connection as the codec sees it. The codec, the services' methods and the plugins are not the
-- program's: what they return is given by the fields of these records.
use myrpc.Base.{ℕ, Bytes, beq, List, [], ◌∷◌, Option, none, some, ℤ, if◌then◌else◌}
use myrpc.Common.Errors.{Error}
use myrpc.Common.ErrorTypes.{ErrorType}
use myrpc.Common.Wire.{Request, Response}
pub use myrpc.Common.Wire.{Deadline, both, for_reading, for_writing}
use myrpc.Server.Store.{Store}

-- `url.Values`.
abbrev pub Query : Type 0
Query = List (Bytes × List Bytes)

-- What a plugin can change of a context: SetPath, and the maps behind Query and Data.
pub record View : Type 0 where
  pub path : Bytes
  pub query : Query
  pub store : Option Store

-- The body of a response: a reply, the placeholder `invalidRequest`, or nil.
pub data Reply : Type 0 where
  value : Bytes → Reply
  invalid_request : Reply
  null : Reply

-- A service is known by its key in `serviceMap`; `none` is nil, as for the two values.
pub record Context : Type 0 where
  pub view : View
  pub req : Request
  pub resp : Response
  pub service : Option Bytes
  pub argv : Option Bytes
  pub replyv : Option Bytes
  pub rpc_error_type : ErrorType

-- A plugin's name and the hooks that it implements. A hook may change the view, and the object that
-- the body points to; it returns an error or nil.
pub record Plugin : Type 0 where
  pub name : Bytes
  pub register : Option (Bytes → List Bytes → Option Error)
  pub post_conn_accept : Option (Option Error)
  pub pre_read_request_header : Option (Context → View × Option Error)
  pub post_read_request_header : Option (Context → View × Option Error)
  pub pre_read_request_body : Option (Context → Bytes → View × Bytes × Option Error)
  pub post_read_request_body : Option (Context → Bytes → View × Bytes × Option Error)
  pub pre_write_response : Option (Context → Reply → View × Bytes × Option Error)
  pub post_write_response : Option (Context → Reply → View × Bytes × Option Error)

-- What the method of a service does: a reply, a reply and an error, or a panic.
pub data Called : Type 0 where
  replied : Bytes → Called
  failed : Bytes → Error → Called
  panicked : Called

-- `IService`: its container of plugins and its method.
pub record Service : Type 0 where
  pub plugins : List Plugin
  pub method : Bytes → Context → Called

pub record Server : Type 0 where
  pub timeout : ℤ
  pub read_timeout : ℤ
  pub write_timeout : ℤ
  pub plugins : List Plugin
  pub services : List (Bytes × Service)
  -- `ServiceBuilder.URIParse`.
  pub uri_parse : Bytes → Bytes × Query × Option Error

-- `serviceMap[path]`.
unfoldable pub find_service : Bytes → List (Bytes × Service) → Option Service
find_service path [] = none
find_service path ((k, s) ∷ services) = if beq k path then some s else find_service path services

pub data HeaderRead : Type 0 where
  header : Request → HeaderRead
  no_header : Error → HeaderRead

pub data BodyRead : Type 0 where
  decoded : Bytes → BodyRead
  undecoded : Error → BodyRead

-- What the codec will give for each read and write, and what was done with the connection so far.
pub record Conn : Type 0 where
  pub headers : List HeaderRead
  pub bodies : List BodyRead
  pub writes : List (Option Error)
  pub written : List (Response × Reply)
  pub deadlines : List Deadline
  pub closed : ℕ

-- `ReadRequestHeader`; an exhausted connection is at its end.
abbrev pub header_from : List HeaderRead → Conn → HeaderRead × Conn
header_from [] c = (no_header Error.eof, c)
header_from (h ∷ hs) c = (h, record c { headers = hs })

abbrev pub next_header : Conn → HeaderRead × Conn
next_header c = header_from c.headers c

-- `ReadRequestBody`.
abbrev pub body_from : List BodyRead → Conn → BodyRead × Conn
body_from [] c = (undecoded Error.eof, c)
body_from (b ∷ bs) c = (b, record c { bodies = bs })

abbrev pub next_body : Conn → BodyRead × Conn
next_body c = body_from c.bodies c

-- `WriteResponse`; the codec may fail.
abbrev pub write_with : List (Option Error) → Response → Reply → Conn → Option Error × Conn
write_with [] r body c = (none, record c { written = (r, body) ∷ c.written })
write_with (e ∷ es) r body c = (e, record c { writes = es; written = (r, body) ∷ c.written })

abbrev pub write : Response → Reply → Conn → Option Error × Conn
write r body c = write_with c.writes r body c
