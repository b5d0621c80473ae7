-- ===== src/Client/Wrapper.antt =====
-- client/client_wrapper.go: the codec of an invoker, with the deadlines and the hooks of the plugins
-- around each operation. What the codec returns is given by the fields of `CodecConn`.
pub mod Stages
pub mod Ends
mod Tests
use myrpc.Base.{Bytes, List, [], ◌∷◌, Option, none, some, ℤ, is_positive, if◌then◌else◌}
use myrpc.Common.Errors.{Error, eof, error_text}
use myrpc.Common.ErrorTypes.{
  ErrorType, RpcError, new_rpc_error, error_type_client_pre_write_request,
  error_type_client_write_request, error_type_client_post_write_request,
  error_type_client_pre_read_response_header, error_type_client_read_response_header,
  error_type_client_post_read_response_header, error_type_client_pre_read_response_body,
  error_type_client_read_response_body, error_type_client_post_read_response_body,
}
use myrpc.Common.Wire.{Request, Response, Deadline, both, for_reading, for_writing}
use myrpc.Client.Hooks.{
  ClientPlugin, do_pre_write_request, do_post_write_request, do_pre_read_response_header,
  do_post_read_response_header, do_pre_read_response_body, do_post_read_response_body,
}

-- What a read of the codec gives.
pub data Decoded (X : Type 0) : Type 0 where
  got : X → Decoded X
  not_got : Error → Decoded X

-- What the codec will give for each write and read, with the requests given to it and the deadlines
-- set, newest first.
pub record CodecConn : Type 0 where
  pub writes : List (Option Error)
  pub headers : List (Decoded Response)
  pub bodies : List (Decoded Bytes)
  pub sent : List (Request × Bytes)
  pub deadlines : List Deadline

pub record Wrapper : Type 0 where
  pub plugins : List ClientPlugin
  pub timeout : ℤ
  pub read_timeout : ℤ
  pub write_timeout : ℤ

abbrev pub with_deadline : ℤ → Deadline → CodecConn → CodecConn
with_deadline timeout d c =
    if is_positive timeout then record c { deadlines = d ∷ c.deadlines } else c

-- `&common.RPCError{Type: t, Error: err.Error()}`, or nil where `err` is nil.
abbrev pub typed_error : ErrorType → Option Error → Option RpcError
typed_error t none = none
typed_error t (some e) = some (new_rpc_error t (error_text e))

-- The codec's `WriteRequest`, `ReadResponseHeader` and `ReadResponseBody`; an exhausted connection is
-- at its end.
abbrev pub codec_write_from :
    List (Option Error) → Request × Bytes → CodecConn → Option Error × CodecConn
codec_write_from [] x c = (none, record c { sent = x ∷ c.sent })
codec_write_from (e ∷ es) x c = (e, record c { writes = es; sent = x ∷ c.sent })

abbrev pub codec_header_from : List (Decoded Response) → CodecConn → Decoded Response × CodecConn
codec_header_from [] c = (not_got eof, c)
codec_header_from (h ∷ hs) c = (h, record c { headers = hs })

abbrev pub codec_body_from : List (Decoded Bytes) → CodecConn → Decoded Bytes × CodecConn
codec_body_from [] c = (not_got eof, c)
codec_body_from (b ∷ bs) c = (b, record c { bodies = bs })

-- A body that is read into nil is thrown away.
abbrev pub stored : Option Bytes → Bytes → Option Bytes
stored none v = none
stored (some _) v = some v

module _ (w : Wrapper) where
  -- `WriteRequest`, from the codec's result on.
  abbrev pub write_finished :
      Option Error × CodecConn → Request × Bytes → CodecConn × Option RpcError
  write_finished (none, c) x =
      (c, typed_error error_type_client_post_write_request (do_post_write_request w.plugins x).1)
  write_finished (some e, c) x = (c, typed_error error_type_client_write_request (some e))

  -- … from the result of the hooks before it on.
  abbrev pub write_prepared :
      CodecConn → (Request × Bytes) × Option Error → CodecConn × Option RpcError
  write_prepared c (x, none) = write_finished (codec_write_from c.writes x c) x
  write_prepared c (x, some e) = (c, typed_error error_type_client_pre_write_request (some e))

  unfoldable pub write_request : CodecConn → Request → Bytes → CodecConn × Option RpcError
  write_request c r body =
      write_prepared
        (with_deadline w.write_timeout (for_writing w.write_timeout)
          (with_deadline w.timeout (both w.timeout) c))
        (do_pre_write_request w.plugins (r, body))

  -- `ReadResponseHeader`, from the codec's result on.
  abbrev pub header_finished :
      Decoded Response × CodecConn → Response → CodecConn × Response × Option RpcError
  header_finished (got r, c) r0 =
      let (r', err) = do_post_read_response_header w.plugins r in
      (c, r', typed_error error_type_client_post_read_response_header err)
  header_finished (not_got e, c) r0 =
      (c, r0, typed_error error_type_client_read_response_header (some e))

  abbrev pub header_prepared :
      CodecConn → Response × Option Error → CodecConn × Response × Option RpcError
  header_prepared c (r, none) = header_finished (codec_header_from c.headers c) r
  header_prepared c (r, some e) =
      (c, r, typed_error error_type_client_pre_read_response_header (some e))

  unfoldable pub read_response_header :
      CodecConn → Response → CodecConn × Response × Option RpcError
  read_response_header c r =
      header_prepared
        (with_deadline w.read_timeout (for_reading w.read_timeout)
          (with_deadline w.timeout (both w.timeout) c))
        (do_pre_read_response_header w.plugins r)

  -- `ReadResponseBody`, from the codec's result on.
  abbrev pub body_finished :
      Decoded Bytes × CodecConn → Option Bytes → CodecConn × Option Bytes × Option RpcError
  body_finished (got v, c) body =
      let (body', err) = do_post_read_response_body w.plugins (stored body v) in
      (c, body', typed_error error_type_client_post_read_response_body err)
  body_finished (not_got e, c) body =
      (c, body, typed_error error_type_client_read_response_body (some e))

  abbrev pub body_prepared :
      CodecConn → Option Bytes × Option Error → CodecConn × Option Bytes × Option RpcError
  body_prepared c (body, none) = body_finished (codec_body_from c.bodies c) body
  body_prepared c (body, some e) =
      (c, body, typed_error error_type_client_pre_read_response_body (some e))

  unfoldable pub read_response_body :
      CodecConn → Option Bytes → CodecConn × Option Bytes × Option RpcError
  read_response_body c body = body_prepared c (do_pre_read_response_body w.plugins body)
