-- ===== src/Client/Wrapper/Ends.antt =====
-- The end of input as the wrapper passes it on. `input` knows it by the text of the error.
use myrpc.Base.{
  ℕ, Bytes, codes, List, [], ◌∷◌, Option, none, some, ◌≡◌, ◌≢◌, refl, sym, ap, ◌∙◌, arith,
  Option-cases, inl, inr,
}
use mathlib.Core.Option.{some-injective}
use myrpc.Common.Errors.{Error, error_text, format, format_plain}
use myrpc.Common.ErrorTypes.{
  ErrorType, RpcError, error_type_client_read_response_header, error_type_client_read_response_body,
}
use myrpc.Common.Wire.{Response, both, for_reading}
use myrpc.Client.Hooks.{
  Hook, ClientPlugin, run_client_hooks, do_pre_read_response_header, do_pre_read_response_body,
}
use myrpc.Client.Wrapper.{
  Decoded, got, not_got, CodecConn, Wrapper, with_deadline, typed_error, stored, codec_header_from,
  codec_body_from, header_finished, header_prepared, read_response_header, body_finished,
  body_prepared, read_response_body,
}
use myrpc.Client.Wrapper.Stages.{with_deadline-same}

abbrev first_byte : Bytes → ℕ
first_byte [] = 0
first_byte (b ∷ _) = b

not_end : (text : Bytes) → b'P' ∷ text ≢ codes "EOF"
not_end text h = let first : b'P' ≡ b'E' = ap first_byte h in omega (arith, first)

-- The error of a hook is never taken for the end of input.
hook_error-text :
    {X : Type 0} (hook : ClientPlugin → Option (Hook X)) (text : Bytes) (ps : List ClientPlugin)
    (x : X) (e : Error)
    → (run_client_hooks hook (b'P' ∷ text) ps x).1 ≡ some e
    → error_text e ≢ codes "EOF"
unfolding run_client_hooks
hook_error-text hook text [] x e h = cc
hook_error-text hook text (p ∷ ps) x e h = elim (Option-cases (hook p)) [
  | inl skipped ↦ hook_error-text hook text ps x e (rw (skipped, run_client_hooks) at h)
  | inr (f, runs) ↦ elim (Option-cases (f x).1) [
    | inl fine ↦ hook_error-text hook text ps (f x).0 e (rw (runs, run_client_hooks, fine) at h)
    | inr (err, failing) ↦
        let same = some-injective _ _ (rw (runs, run_client_hooks, failing) at h) in
        let start = format_plain b'P' text (p.name ∷ error_text err ∷ []) refl in
        λ end.
          not_end (format text (p.name ∷ error_text err ∷ []))
            (sym start ∙ (ap error_text same ∙ end))
  ]
]

typed_error-cases :
    (t : ErrorType) (o : Option Error) (e : RpcError)
    → typed_error t o ≡ some e
    → (err : Error) × (o ≡ some err) × (e.error ≡ error_text err) × (e.kind ≡ t)
typed_error-cases t none e h = cc
typed_error-cases t (some err) e h =
    let same = some-injective _ _ h in
    (err, refl, sym (ap (λ e. e.error) same), sym (ap (λ e. e.kind) same))

-- What the codec gives next.
abbrev pub next_response : List (Decoded Response) → Decoded Response
next_response [] = not_got Error.eof
next_response (h ∷ _) = h

abbrev pub next_body : List (Decoded Bytes) → Decoded Bytes
next_body [] = not_got Error.eof
next_body (b ∷ _) = b

-- The error `e` says that the codec failed on a header, with the text of the end of input.
abbrev pub HeaderEnded : CodecConn → RpcError → Type 0
HeaderEnded c e =
    (e.kind ≡ error_type_client_read_response_header)
    × (err : Error) × (next_response c.headers ≡ not_got err)
    × (error_text err ≡ codes "EOF")

abbrev pub BodyEnded : CodecConn → RpcError → Type 0
BodyEnded c e =
    (e.kind ≡ error_type_client_read_response_body)
    × (err : Error) × (next_body c.bodies ≡ not_got err)
    × (error_text err ≡ codes "EOF")

module _ (w : Wrapper) where
  -- A hook's error with the text of the end is none.
  hook_typed-text :
      {X : Type 0} (hook : ClientPlugin → Option (Hook X)) (text : Bytes) (x : X) (t : ErrorType)
      (e : RpcError)
      → typed_error t (run_client_hooks hook (b'P' ∷ text) w.plugins x).1 ≡ some e
      → e.error ≢ codes "EOF"
  hook_typed-text hook text x t e h =
      let (err, failing, same, _) = typed_error-cases t _ e h in
      λ end. hook_error-text hook text w.plugins x err failing (sym same ∙ end)

  header_finished-HeaderEnded :
      (c : CodecConn) (hs : List (Decoded Response)) (r : Response) (e : RpcError)
      → c.headers ≡ hs
      → (header_finished w (codec_header_from hs c) r).2 ≡ some e
      → e.error ≡ codes "EOF"
      → HeaderEnded c e
  header_finished-HeaderEnded c [] r e read h end =
      let (err, failing, same, kind) = typed_error-cases _ (some Error.eof) e h in
      (kind, Error.eof, ap next_response read, refl)
  header_finished-HeaderEnded c (not_got err ∷ hs) r e read h end =
      let (err', failing, same, kind) = typed_error-cases _ (some err) e h in
      (kind, err, ap next_response read, cc (some-injective _ _ failing, same, end))
  header_finished-HeaderEnded c (got r' ∷ hs) r e read h end =
      absurd (hook_typed-text (λ p. p.post_read_response_header) _ r' _ e h end)

  header_prepared-HeaderEnded :
      (c : CodecConn) (r : Response) (hooks : Response × Option Error) (e : RpcError)
      → do_pre_read_response_header w.plugins r ≡ hooks
      → (header_prepared w c hooks).2 ≡ some e
      → e.error ≡ codes "EOF"
      → HeaderEnded c e
  header_prepared-HeaderEnded c r (r', none) e run h end =
      header_finished-HeaderEnded c c.headers r' e refl h end
  header_prepared-HeaderEnded c r (r', some err) e run h end = absurd (
      hook_typed-text (λ p. p.pre_read_response_header) _ r _ e
        (ap (typed_error _) (ap (λ t. t.1) run) ∙ h) end)

  body_finished-BodyEnded :
      (c : CodecConn) (bs : List (Decoded Bytes)) (body : Option Bytes) (e : RpcError)
      → c.bodies ≡ bs
      → (body_finished w (codec_body_from bs c) body).2 ≡ some e
      → e.error ≡ codes "EOF"
      → BodyEnded c e
  body_finished-BodyEnded c [] body e read h end =
      let (err, failing, same, kind) = typed_error-cases _ (some Error.eof) e h in
      (kind, Error.eof, ap next_body read, refl)
  body_finished-BodyEnded c (not_got err ∷ bs) body e read h end =
      let (err', failing, same, kind) = typed_error-cases _ (some err) e h in
      (kind, err, ap next_body read, cc (some-injective _ _ failing, same, end))
  body_finished-BodyEnded c (got v ∷ bs) body e read h end =
      absurd (hook_typed-text (λ p. p.post_read_response_body) _ (stored body v) _ e h end)

  body_prepared-BodyEnded :
      (c : CodecConn) (body : Option Bytes) (hooks : Option Bytes × Option Error) (e : RpcError)
      → do_pre_read_response_body w.plugins body ≡ hooks
      → (body_prepared w c hooks).2 ≡ some e
      → e.error ≡ codes "EOF"
      → BodyEnded c e
  body_prepared-BodyEnded c body (body', none) e run h end =
      body_finished-BodyEnded c c.bodies body' e refl h end
  body_prepared-BodyEnded c body (body', some err) e run h end = absurd (
      hook_typed-text (λ p. p.pre_read_response_body) _ body _ e
        (ap (typed_error _) (ap (λ t. t.1) run) ∙ h) end)

-- `input` takes an error for the end of the connection by its text. Where ReadResponseHeader returns
-- an error with that text, its type says that it comes from the codec, and the codec did give an error
-- of that text: no hook's error is taken for the end.
pub read_response_header-HeaderEnded :
    (w : Wrapper) (c : CodecConn) (r : Response) (e : RpcError)
    → (read_response_header w c r).2 ≡ some e
    → e.error ≡ codes "EOF"
    → HeaderEnded c e
unfolding read_response_header
read_response_header-HeaderEnded w c r e h end =
    let c1 = with_deadline w.timeout (both w.timeout) c in
    let c2 = with_deadline w.read_timeout (for_reading w.read_timeout) c1 in
    let (_, _, headers1) = with_deadline-same w w.timeout (both w.timeout) c in
    let (_, _, headers2) = with_deadline-same w w.read_timeout (for_reading w.read_timeout) c1 in
    let (kind, err, given, text) =
      header_prepared-HeaderEnded w c2 r (do_pre_read_response_header w.plugins r) e refl h end in
    (kind, err, sym (ap next_response (headers2 ∙ headers1)) ∙ given, text)

-- Where ReadResponseBody returns an error with the text of the end of the connection, its type says
-- that it comes from the codec, and the codec did give an error of that text.
pub read_response_body-BodyEnded :
    (w : Wrapper) (c : CodecConn) (body : Option Bytes) (e : RpcError)
    → (read_response_body w c body).2 ≡ some e
    → e.error ≡ codes "EOF"
    → BodyEnded c e
unfolding read_response_body
read_response_body-BodyEnded w c body e h end =
    body_prepared-BodyEnded w c body (do_pre_read_response_body w.plugins body) e refl h end
