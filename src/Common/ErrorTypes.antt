-- ===== src/Common/ErrorTypes.antt =====
-- common/error_type.go: the kinds of RPC error, and how a kind travels in front of a message.
use myrpc.Base.{ℕ, ◌-◌, Bytes, codes, [], ◌∷◌, ltb, if◌then◌else◌, ℤ, pos, negsuc}

-- `ErrorType`, an int8.
abbrev pub ErrorType : Type 0
ErrorType = ℤ

pub record RpcError : Type 0 where
  pub kind : ErrorType
  pub error : Bytes

-- `NewRPCError`.
abbrev pub new_rpc_error : ErrorType → Bytes → RpcError
new_rpc_error k m = record { kind = k; error = m }

abbrev pub error_type_unknown : ErrorType
error_type_unknown = pos 0

abbrev pub error_type_client_shutdown : ErrorType
error_type_client_shutdown = negsuc 0

abbrev pub error_type_client_connect : ErrorType
error_type_client_connect = negsuc 1

abbrev pub error_type_client_pre_write_request : ErrorType
error_type_client_pre_write_request = negsuc 2

abbrev pub error_type_client_write_request : ErrorType
error_type_client_write_request = negsuc 3

abbrev pub error_type_client_post_write_request : ErrorType
error_type_client_post_write_request = negsuc 4

abbrev pub error_type_client_pre_read_response_header : ErrorType
error_type_client_pre_read_response_header = negsuc 5

abbrev pub error_type_client_read_response_header : ErrorType
error_type_client_read_response_header = negsuc 6

abbrev pub error_type_client_post_read_response_header : ErrorType
error_type_client_post_read_response_header = negsuc 7

abbrev pub error_type_client_pre_read_response_body : ErrorType
error_type_client_pre_read_response_body = negsuc 8

abbrev pub error_type_client_read_response_body : ErrorType
error_type_client_read_response_body = negsuc 9

abbrev pub error_type_client_post_read_response_body : ErrorType
error_type_client_post_read_response_body = negsuc 10

abbrev pub error_type_server_pre_read_request_header : ErrorType
error_type_server_pre_read_request_header = pos 1

abbrev pub error_type_server_read_request_header : ErrorType
error_type_server_read_request_header = pos 2

abbrev pub error_type_server_invalid_service_method : ErrorType
error_type_server_invalid_service_method = pos 3

abbrev pub error_type_server_not_found_service : ErrorType
error_type_server_not_found_service = pos 4

abbrev pub error_type_server_post_read_request_header : ErrorType
error_type_server_post_read_request_header = pos 5

abbrev pub error_type_server_pre_read_request_body : ErrorType
error_type_server_pre_read_request_body = pos 6

abbrev pub error_type_server_read_request_body : ErrorType
error_type_server_read_request_body = pos 7

abbrev pub error_type_server_post_read_request_body : ErrorType
error_type_server_post_read_request_body = pos 8

abbrev pub error_type_server_service_panic : ErrorType
error_type_server_service_panic = pos 9

abbrev pub error_type_server_service : ErrorType
error_type_server_service = pos 10

abbrev pub error_type_server_pre_write_response : ErrorType
error_type_server_pre_write_response = pos 11

abbrev pub error_type_server_write_response : ErrorType
error_type_server_write_response = pos 12

abbrev pub rpc_err_shutdown : RpcError
rpc_err_shutdown = new_rpc_error error_type_client_shutdown (codes "connection is shut down")

abbrev pub rpc_err_broad_cast : RpcError
rpc_err_broad_cast = new_rpc_error error_type_unknown (codes "some invokers return Error")

abbrev pub rpc_err_forking : RpcError
rpc_err_forking = new_rpc_error error_type_unknown (codes "all invokers return Error")

-- Go's `string(t)` of an int8: the UTF-8 bytes of the code point `t`, which is below 128, or of
-- U+FFFD where `t` is negative.
abbrev pub string_of_type : ErrorType → Bytes
string_of_type (pos n) = n ∷ []
string_of_type (negsuc _) = 0xef ∷ 0xbf ∷ 0xbd ∷ []

-- Go's `ErrorType(b)` of a byte.
abbrev pub type_of_byte : ℕ → ErrorType
type_of_byte b = if ltb b 128 then pos b else negsuc (255 - b)
