-- ===== src/Client/Wrapper/Stages.antt =====
-- How far an operation of the wrapper went, by the error that it returns.
use myrpc.Base.{
  Bytes, List, [], ◌∷◌, Option, none, some, ◌≡◌, refl, sym, ap, ◌∙◌, ◌⊎◌, inl, inr, arith, ℤ,
}
use myrpc.Common.Errors.{Error, error_text}
use myrpc.Common.ErrorTypes.{
  RpcError, error_type_client_pre_write_request, error_type_client_write_request,
  error_type_client_post_write_request,
}
use myrpc.Common.Wire.{Request, Deadline, both, for_writing}
use myrpc.Client.Hooks.{do_pre_write_request, do_post_write_request}
use myrpc.Client.Wrapper.{
  CodecConn, Wrapper, with_deadline, codec_write_from, write_finished, write_prepared,
  write_request,
}

-- What the codec gives next.
abbrev pub next_write : List (Option Error) → Option Error
next_write [] = none
next_write (e ∷ _) = e

-- What the result of WriteRequest says: nil, a request was written; an error, by its type: nothing
-- was given to the codec, the codec refused the request, or it was written all the same.
abbrev pub Wrote : CodecConn → CodecConn → Option RpcError → Type 0
Wrote c c' none = (x : Request × Bytes) × (c'.sent ≡ x ∷ c.sent) × (next_write c.writes ≡ none)
Wrote c c' (some e) =
    ((e.kind ≡ error_type_client_pre_write_request) × (c'.sent ≡ c.sent) × (c'.writes ≡ c.writes))
    ⊎ ((e.kind ≡ error_type_client_write_request)
        × (err : Error) × (next_write c.writes ≡ some err)
        × (e.error ≡ error_text err))
    ⊎ ((e.kind ≡ error_type_client_post_write_request)
        × (x : Request × Bytes) × (c'.sent ≡ x ∷ c.sent)
        × (next_write c.writes ≡ none))

module _ (w : Wrapper) where
  write_finished-Wrote :
      (c : CodecConn) (x : Request × Bytes) (ws : List (Option Error)) (post : Option Error)
      → c.writes ≡ ws
      → (do_post_write_request w.plugins x).1 ≡ post
      → Wrote c
          (write_finished w (codec_write_from ws x c) x).0
          (write_finished w (codec_write_from ws x c) x).1
  write_finished-Wrote c x [] none e h = rw h (x, refl, ap next_write e)
  write_finished-Wrote c x [] (some err) e h = rw h (inr (inr (refl, x, refl, ap next_write e)))
  write_finished-Wrote c x (none ∷ ws) none e h = rw h (x, refl, ap next_write e)
  write_finished-Wrote c x (none ∷ ws) (some err) e h =
      rw h (inr (inr (refl, x, refl, ap next_write e)))
  write_finished-Wrote c x (some err ∷ ws) post e h = inr (inl (refl, err, ap next_write e, refl))

  write_prepared-Wrote :
      (c : CodecConn) (t : (Request × Bytes) × Option Error)
      → Wrote c (write_prepared w c t).0 (write_prepared w c t).1
  write_prepared-Wrote c (x, none) = write_finished-Wrote c x c.writes _ refl refl
  write_prepared-Wrote c (x, some e) = inl (refl, refl, refl)

  Wrote-start :
      (c0 c c' : CodecConn) (r : Option RpcError)
      → c.sent ≡ c0.sent
      → c.writes ≡ c0.writes
      → Wrote c c' r
      → Wrote c0 c' r
  Wrote-start c0 c c' none s v (x, sent, ok) = (x, sent ∙ ap (◌∷◌ x) s, sym (ap next_write v) ∙ ok)
  Wrote-start c0 c c' (some e) s v (inl (k, same, left)) = inl (k, same ∙ s, left ∙ v)
  Wrote-start c0 c c' (some e) s v (inr (inl (k, err, refused, text))) =
      inr (inl (k, err, sym (ap next_write v) ∙ refused, text))
  Wrote-start c0 c c' (some e) s v (inr (inr (k, x, sent, ok))) =
      inr (inr (k, x, sent ∙ ap (◌∷◌ x) s, sym (ap next_write v) ∙ ok))

  pub with_deadline-same :
      (t : ℤ) (d : Deadline) (c : CodecConn)
      → ((with_deadline t d c).sent ≡ c.sent)
        × ((with_deadline t d c).writes ≡ c.writes)
        × ((with_deadline t d c).headers ≡ c.headers)
  with_deadline-same t d c = ground arith

-- Whatever the hooks and the codec do, the type of the error that WriteRequest returns tells what
-- happened to the request: before the codec, nothing was given to it; from the codec, its text is that
-- of the codec's error; behind the codec, or with no error, one request was given to the codec, which
-- took it.
pub write_request-Wrote :
    (w : Wrapper) (c : CodecConn) (r : Request) (body : Bytes)
    → Wrote c (write_request w c r body).0 (write_request w c r body).1
unfolding write_request
write_request-Wrote w c r body =
    let c1 = with_deadline w.timeout (both w.timeout) c in
    let c2 = with_deadline w.write_timeout (for_writing w.write_timeout) c1 in
    let (sent1, writes1, _) = with_deadline-same w w.timeout (both w.timeout) c in
    let (sent2, writes2, _) =
      with_deadline-same w w.write_timeout (for_writing w.write_timeout) c1 in
    let t = do_pre_write_request w.plugins (r, body) in
    Wrote-start w c c2 (write_prepared w c2 t).0 (write_prepared w c2 t).1 (sent2 ∙ sent1)
      (writes2 ∙ writes1) (write_prepared-Wrote w c2 t)
