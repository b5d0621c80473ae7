-- ===== src/Client/Wrapper/Tests.antt =====
-- A wrapper with one plugin, whose codec writes one request and then comes to its end.
use myrpc.Base.{Bytes, codes, [], ◌∷◌, none, some, ◌≡◌, refl, pos}
use myrpc.Common.Errors.{message}
use myrpc.Common.ErrorTypes.{new_rpc_error, error_type_client_read_response_body}
use myrpc.Common.Wire.{Request, Response}
use myrpc.Client.Hooks.{Hook, ClientPlugin, run_client_hooks}
use myrpc.Client.Wrapper.{CodecConn, Wrapper, write_request, read_response_body}
use myrpc.Client.Wrapper.Stages.{Wrote, write_request-Wrote}
use myrpc.Client.Wrapper.Ends.{BodyEnded, read_response_body-BodyEnded}

-- It sends each request with a prefix, and refuses an empty one.
abbrev prefix : Hook (Request × Bytes)
prefix (r, []) = ((r, []), some (message (codes "empty")))
prefix (r, b ∷ body) = ((r, b'>' ∷ b ∷ body), none)

abbrev prefixing : ClientPlugin
prefixing = record {
  name = codes "prefix";
  post_connected = none;
  pre_write_request = some prefix;
  post_write_request = none;
  pre_read_response_header = none;
  post_read_response_header = none;
  pre_read_response_body = none;
  post_read_response_body = none;
}

abbrev wrapper : Wrapper
wrapper = record {
  plugins = prefixing ∷ [];
  timeout = pos 0;
  read_timeout = pos 5;
  write_timeout = pos 5;
}

abbrev ending : CodecConn
ending = record { writes = []; headers = []; bodies = []; sent = []; deadlines = [] }

abbrev request : Request
request = record { service_method = codes "/echo"; seq = 0 }

abbrev no_response : Response
no_response = record { service_method = []; seq = 0; error = [] }

write_request_test :
    (write_request wrapper ending request (codes "hi")).0.sent ≡ (request, codes ">hi") ∷ []
unfolding write_request run_client_hooks
write_request_test = refl

write_request-Wrote_example :
    Wrote ending
      (write_request wrapper ending request []).0
      (write_request wrapper ending request []).1
write_request-Wrote_example = write_request-Wrote wrapper ending request []

read_response_body-BodyEnded_example :
    BodyEnded ending (new_rpc_error error_type_client_read_response_body (codes "EOF"))
unfolding read_response_body run_client_hooks
read_response_body-BodyEnded_example =
    read_response_body-BodyEnded wrapper ending none
      (new_rpc_error error_type_client_read_response_body (codes "EOF")) refl refl
