-- ===== src/Server/Hooks.antt =====
-- The plugin container of a server, server/server_plugin.go: each hook is run on the plugins that
-- implement it, in order, until one fails.
use myrpc.Base.{Bytes, codes, List, [], ◌∷◌, ◌++◌, Option, none, some, Bool, true, false}
use myrpc.Common.Errors.{Error, message, error_text, format}
use myrpc.Server.Context.{Context, View, Plugin, Reply, value, invalid_request, null}

abbrev pub err_register_plugin : Bytes
err_register_plugin = codes "RegisterPlugin(%s): %s"

abbrev pub err_post_conn_accept : Bytes
err_post_conn_accept = codes "PostConnAccept(%s): %s"

abbrev pub err_pre_read_request_header : Bytes
err_pre_read_request_header = codes "PreReadRequestHeader(%s): %s"

abbrev pub err_post_read_request_header : Bytes
err_post_read_request_header = codes "PostReadRequestHeader(%s): %s"

abbrev pub err_pre_read_request_body : Bytes
err_pre_read_request_body = codes "PreReadRequestBody(%s): %s"

abbrev pub err_post_read_request_body : Bytes
err_post_read_request_body = codes "PostReadRequestBody(%s): %s"

abbrev pub err_pre_write_response : Bytes
err_pre_write_response = codes "PreWriteResponse(%s): %s"

abbrev pub err_post_write_response : Bytes
err_post_write_response = codes "PostWriteResponse(%s): %s"

-- `common.Err….Format(p.Plugins[i].Name(), err.Error())`.
abbrev pub hook_error : Bytes → Bytes → Error → Error
hook_error text name e = message (format text (name ∷ error_text e ∷ []))

-- `doRegister` runs every plugin and collects the errors.
register_errors : Bytes → List Bytes → List Plugin → List Error
unfolding format
register_errors node_path metadata [] = []
register_errors node_path metadata (p ∷ ps) =
    let rest = register_errors node_path metadata ps in
    elim p.register [
      | none ↦ rest
      | some hook ↦ elim (hook node_path metadata) [
        | none ↦ rest
        | some e ↦ hook_error err_register_plugin p.name e ∷ rest
      ]
    ]

-- `(*MultiError).Error` from its first error on.
multi_lines : List Error → Bytes
multi_lines [] = []
multi_lines (e ∷ es) = b'\n' ∷ (codes "  - " ++ (error_text e ++ multi_lines es))

-- `common.NewMultiError`, which is read by its message.
unfoldable pub multi_error : List Error → Error
unfolding multi_lines
multi_error es = message (codes "[MultiError]:" ++ multi_lines es)

abbrev none_or_multi : List Error → Option Error
none_or_multi [] = none
none_or_multi (e ∷ es) = some (multi_error (e ∷ es))

unfoldable pub do_register : Bytes → List Bytes → List Plugin → Option Error
unfolding register_errors multi_error
do_register node_path metadata ps = none_or_multi (register_errors node_path metadata ps)

-- `doPostConnAccept`; the first result says whether it closed the connection.
unfoldable pub do_post_conn_accept : List Plugin → Bool × Option Error
unfolding format
do_post_conn_accept [] = (false, none)
do_post_conn_accept (p ∷ ps) =
    let rest = do_post_conn_accept ps in
    elim p.post_conn_accept [
      | none ↦ rest
      | some none ↦ rest
      | some (some e) ↦ (true, some (hook_error err_post_conn_accept p.name e))
    ]

-- A hook on the context alone.
unfoldable pub run_hooks :
    (Plugin → Option (Context → View × Option Error))
    → Bytes
    → List Plugin
    → Context
    → Context × Option Error
unfolding format
run_hooks hook text [] x = (x, none)
run_hooks hook text (p ∷ ps) x = elim (hook p) [
  | none ↦ run_hooks hook text ps x
  | some h ↦
      let (v, err) = h x in
      let next = run_hooks hook text ps (record x { view = v }) in
      elim err [ none ↦ next | some e ↦ (record x { view = v }, some (hook_error text p.name e)) ]
]

-- A hook on the context and the object that a request's body is decoded into.
unfoldable pub run_body_hooks :
    (Plugin → Option (Context → Bytes → View × Bytes × Option Error))
    → Bytes
    → List Plugin
    → Context
    → Bytes
    → Context × Bytes × Option Error
unfolding format
run_body_hooks hook text [] x body = (x, body, none)
run_body_hooks hook text (p ∷ ps) x body = elim (hook p) [
  | none ↦ run_body_hooks hook text ps x body
  | some h ↦
      let (v, body', err) = h x body in
      let next = run_body_hooks hook text ps (record x { view = v }) body' in
      elim err [
        | none ↦ next
        | some e ↦ (record x { view = v }, body', some (hook_error text p.name e))
      ]
]

-- A hook that writes into a reply; the placeholder and nil hold nothing that it could change.
abbrev pub rewrite_reply : Reply → Bytes → Reply
rewrite_reply (value _) b = value b
rewrite_reply invalid_request b = invalid_request
rewrite_reply null b = null

-- A hook on the context and the body of a response.
unfoldable pub run_reply_hooks :
    (Plugin → Option (Context → Reply → View × Bytes × Option Error))
    → Bytes
    → List Plugin
    → Context
    → Reply
    → Context × Reply × Option Error
unfolding format
run_reply_hooks hook text [] x body = (x, body, none)
run_reply_hooks hook text (p ∷ ps) x body = elim (hook p) [
  | none ↦ run_reply_hooks hook text ps x body
  | some h ↦
      let (v, b, err) = h x body in
      let body' = rewrite_reply body b in
      let next = run_reply_hooks hook text ps (record x { view = v }) body' in
      elim err [
        | none ↦ next
        | some e ↦ (record x { view = v }, body', some (hook_error text p.name e))
      ]
]

abbrev pub do_pre_read_request_header : List Plugin → Context → Context × Option Error
do_pre_read_request_header = run_hooks (λ p. p.pre_read_request_header) err_pre_read_request_header

abbrev pub do_post_read_request_header : List Plugin → Context → Context × Option Error
do_post_read_request_header =
    run_hooks (λ p. p.post_read_request_header) err_post_read_request_header

abbrev pub do_pre_read_request_body : List Plugin → Context → Bytes → Context × Bytes × Option Error
do_pre_read_request_body = run_body_hooks (λ p. p.pre_read_request_body) err_pre_read_request_body

abbrev pub do_post_read_request_body :
    List Plugin → Context → Bytes → Context × Bytes × Option Error
do_post_read_request_body =
    run_body_hooks (λ p. p.post_read_request_body) err_post_read_request_body

abbrev pub do_pre_write_response : List Plugin → Context → Reply → Context × Reply × Option Error
do_pre_write_response = run_reply_hooks (λ p. p.pre_write_response) err_pre_write_response

abbrev pub do_post_write_response : List Plugin → Context → Reply → Context × Reply × Option Error
do_post_write_response = run_reply_hooks (λ p. p.post_write_response) err_post_write_response
