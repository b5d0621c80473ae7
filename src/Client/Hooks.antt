-- ===== src/Client/Hooks.antt =====
-- client/client_plugin.go: the plugin container of a client. Each hook is run on the plugins that
-- implement it, in order, until one fails.
use myrpc.Base.{Bytes, codes, List, [], ◌∷◌, Option, none, some, Bool, true, false}
use myrpc.Common.Errors.{Error, message, error_text, format}
use myrpc.Common.Wire.{Request, Response}

abbrev pub err_post_connected : Bytes
err_post_connected = codes "PostConnected(%s): %s"

abbrev pub err_pre_write_request : Bytes
err_pre_write_request = codes "PreWriteRequest(%s): %s"

abbrev pub err_post_write_request : Bytes
err_post_write_request = codes "PostWriteRequest(%s): %s"

abbrev pub err_pre_read_response_header : Bytes
err_pre_read_response_header = codes "PreReadResponseHeader(%s): %s"

abbrev pub err_post_read_response_header : Bytes
err_post_read_response_header = codes "PostReadResponseHeader(%s): %s"

abbrev pub err_pre_read_response_body : Bytes
err_pre_read_response_body = codes "PreReadResponseBody(%s): %s"

abbrev pub err_post_read_response_body : Bytes
err_post_read_response_body = codes "PostReadResponseBody(%s): %s"

-- A hook gets an object, which it may change, and returns an error or nil.
abbrev pub Hook : Type 0 → Type 0
Hook X = X → X × Option Error

-- A plugin's name and the hooks that it implements. The body of a response is nil where nobody waits
-- for it.
pub record ClientPlugin : Type 0 where
  pub name : Bytes
  pub post_connected : Option (Option Error)
  pub pre_write_request : Option (Hook (Request × Bytes))
  pub post_write_request : Option (Hook (Request × Bytes))
  pub pre_read_response_header : Option (Hook Response)
  pub post_read_response_header : Option (Hook Response)
  pub pre_read_response_body : Option (Hook (Option Bytes))
  pub post_read_response_body : Option (Hook (Option Bytes))

-- `doPostConnected`; the first result says whether it closed the connection.
unfoldable pub do_post_connected : List ClientPlugin → Bool × Option Error
unfolding format
do_post_connected [] = (false, none)
do_post_connected (p ∷ ps) =
    let rest = do_post_connected ps in
    elim p.post_connected [
      | none ↦ rest
      | some none ↦ rest
      | some (some e) ↦
          (true, some (message (format err_post_connected (p.name ∷ error_text e ∷ []))))
    ]

-- The loop that the other six methods share.
unfoldable pub run_client_hooks :
    {X : Type 0}
    → (ClientPlugin → Option (Hook X))
    → Bytes
    → List ClientPlugin
    → X
    → X × Option Error
unfolding format
run_client_hooks hook text [] x = (x, none)
run_client_hooks hook text (p ∷ ps) x = elim (hook p) [
  | none ↦ run_client_hooks hook text ps x
  | some h ↦
      let (x', err) = h x in
      let next = run_client_hooks hook text ps x' in
      elim err [
        | none ↦ next
        | some e ↦ (x', some (message (format text (p.name ∷ error_text e ∷ []))))
      ]
]

abbrev pub do_pre_write_request : List ClientPlugin → Hook (Request × Bytes)
do_pre_write_request = run_client_hooks (λ p. p.pre_write_request) err_pre_write_request

abbrev pub do_post_write_request : List ClientPlugin → Hook (Request × Bytes)
do_post_write_request = run_client_hooks (λ p. p.post_write_request) err_post_write_request

abbrev pub do_pre_read_response_header : List ClientPlugin → Hook Response
do_pre_read_response_header =
    run_client_hooks (λ p. p.pre_read_response_header) err_pre_read_response_header

abbrev pub do_post_read_response_header : List ClientPlugin → Hook Response
do_post_read_response_header =
    run_client_hooks (λ p. p.post_read_response_header) err_post_read_response_header

abbrev pub do_pre_read_response_body : List ClientPlugin → Hook (Option Bytes)
do_pre_read_response_body =
    run_client_hooks (λ p. p.pre_read_response_body) err_pre_read_response_body

abbrev pub do_post_read_response_body : List ClientPlugin → Hook (Option Bytes)
do_post_read_response_body =
    run_client_hooks (λ p. p.post_read_response_body) err_post_read_response_body
