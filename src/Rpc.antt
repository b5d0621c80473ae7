-- ===== src/Rpc.antt =====
-- A call from end to end: the invoker of client/client_invoker.go and the connection of
-- server/server.go, joined by codecs that carry headers and bodies as they are.
pub mod Reads
pub mod Whole
mod Tests
use myrpc.Base.{Bytes, List, [], ◌∷◌, Option, none, some, ◌≡◌, All, codes}
use myrpc.Common.Errors.{error_text}
use myrpc.Common.ErrorTypes.{
  new_rpc_error, error_type_server_service, error_type_server_service_panic,
}
use myrpc.Client.Invoker.{Call, BodyRead, decoded}
use myrpc.Server.Context.{
  Plugin, Reply, value, invalid_request, null, Called, replied, failed, panicked,
}

-- A plugin with no hook around requests and responses, but for those after a response.
pub record IsPlain (p : Plugin) : Type 0 where
  pub pre_header : p.pre_read_request_header ≡ none
  pub post_header : p.post_read_request_header ≡ none
  pub pre_body : p.pre_read_request_body ≡ none
  pub post_body : p.post_read_request_body ≡ none
  pub pre_response : p.pre_write_response ≡ none

-- What the client's codec decodes from the body of a response; that of an error is discarded.
abbrev pub body_of : Reply → BodyRead
body_of (value v) = decoded v
body_of invalid_request = decoded []
body_of null = decoded []

-- A completed call as the client sees it, where the method did `did` and the reply was `old` before.
abbrev pub Replied : Bytes → Call → Type 0
Replied v call = (call.error ≡ none) × (call.reply ≡ v)

abbrev pub FailedWith : Bytes → Bytes → Bytes → Call → Type 0
FailedWith [] v old call = Replied v call
FailedWith (b ∷ text) v old call =
    (call.error ≡ some (new_rpc_error error_type_server_service (b ∷ text))) × (call.reply ≡ old)

abbrev pub Returned : Called → Bytes → Call → Type 0
Returned (replied v) old call = Replied v call
Returned (failed v e) old call = FailedWith (error_text e) v old call
Returned panicked old call =
    (call.error ≡ some (new_rpc_error error_type_server_service_panic (codes "Service Panic!")))
    × (call.reply ≡ old)
