-- ===== src/Server/Responses/Answers.antt =====
-- What goes out for a request.
use myrpc.Base.{
  ℕ, ◌≤◌, ◌<◌, Bytes, is_empty, List, [], ◌∷◌, ◌++◌, Option, none, some, true, ◌≡◌, refl, arith,
  ◌⊎◌, inl, inr, All, length, ℤ, pos, Option-cases, Bool-cases, ap, ◌∙◌,
}
use myrpc.Common.Errors.{Error, error_text}
use myrpc.Common.Wire.{Response}
use myrpc.Server.Context.{
  Context, View, Plugin, Reply, invalid_request, Server, Conn, write, write_with, Deadline, both,
  for_writing,
}
use myrpc.Server.Hooks.{run_reply_hooks, rewrite_reply, do_pre_write_response}
use myrpc.Server.Requests.{set_deadline, service_plugins}
use myrpc.Server.Responses.{
  prefix_type, pre_write_done, pre_write_service, write_done, post_write_server, pre_write,
  write_response, send_response,
}

-- The hooks on a response change the view of a context, and nothing else of it.
pub record Framed (x y : Context) : Type 0 where
  pub req : y.req ≡ x.req
  pub resp : y.resp ≡ x.resp
  pub rpc_error_type : y.rpc_error_type ≡ x.rpc_error_type

pub run_reply_hooks-Framed :
    (hook : Plugin → Option (Context → Reply → View × Bytes × Option Error)) (text : Bytes)
    (ps : List Plugin) (x : Context) (body : Reply)
    → Framed x (run_reply_hooks hook text ps x body).0
unfolding run_reply_hooks
run_reply_hooks-Framed hook text [] x body = ground arith
run_reply_hooks-Framed hook text (p ∷ ps) x body = elim (Option-cases (hook p)) [
  | inl skipped ↦ rw (skipped, run_reply_hooks) (run_reply_hooks-Framed hook text ps x body)
  | inr (h, runs) ↦
      let x' = record x { view = (h x body).0 } in
      let rest = run_reply_hooks-Framed hook text ps x' (rewrite_reply body (h x body).1) in
      elim (Option-cases (h x body).2) [
        | inl fine ↦
            rw (runs, run_reply_hooks, fine)
              (record { req = rest.req; resp = rest.resp; rpc_error_type = rest.rpc_error_type })
        | inr (e, failing) ↦ rw (runs, run_reply_hooks, failing) (ground arith)
      ]
]

is_empty_nil : (s : Bytes) → is_empty s ≡ true → s ≡ []
is_empty_nil [] h = refl
is_empty_nil (_ ∷ _) h = cc

pub write_with-written :
    (es : List (Option Error)) (r : Response) (body : Reply) (c : Conn)
    → (write_with es r body c).1.written ≡ (r, body) ∷ c.written
write_with-written [] r body c = refl
write_with-written (e ∷ es) r body c = refl

-- A text that a client reads a server's error from: a byte between 1 and 127 comes first.
abbrev pub IsTyped : Bytes → Type 0
IsTyped [] = ⊥
IsTyped (b ∷ _) = (0 < b) × (b < 128)

-- The type of an error, set whenever there is an error text.
abbrev pub IsServerType : ℤ → Type 0
IsServerType t = (n : ℕ) × (t ≡ pos n) × (0 < n) × (n < 128)

-- No error, or one with a type in front.
abbrev pub IsWellTyped : Response → Type 0
IsWellTyped r = (r.error ≡ []) ⊎ IsTyped r.error

module _ (server : Server) where
  -- What the hooks before a response leave: the request, and an error of a server type or none.
  record Prepared (x y : Context) : Type 0 where
    req : y.req ≡ x.req
    seq : y.resp.seq ≡ x.resp.seq
    service_method : y.resp.service_method ≡ x.resp.service_method
    typed : (is_empty y.resp.error ≡ true) ⊎ IsServerType y.rpc_error_type

  pre_write_done-Prepared :
      (x : Context) (t : Context × Reply × Option Error)
      → Framed x t.0
      → (is_empty x.resp.error ≡ true) ⊎ IsServerType x.rpc_error_type
      → Prepared x (pre_write_done server t).0
  pre_write_done-Prepared x (y, body, none) f typed = record {
    req = f.req;
    seq = ap (λ r. r.seq) f.resp;
    service_method = ap (λ r. r.service_method) f.resp;
    typed = rw (f.resp, f.rpc_error_type) typed;
  }
  pre_write_done-Prepared x (y, body, some e) f typed = record {
    req = f.req;
    seq = ap (λ r. r.seq) f.resp;
    service_method = ap (λ r. r.service_method) f.resp;
    typed = inr (11, refl, omega arith, omega arith);
  }

  Framed-trans : (x y z : Context) → Framed x y → Framed y z → Framed x z
  Framed-trans x y z f g = record {
    req = g.req ∙ f.req;
    resp = g.resp ∙ f.resp;
    rpc_error_type = g.rpc_error_type ∙ f.rpc_error_type;
  }

  pre_write_service-Prepared :
      (x : Context) (t : Context × Reply × Option Error)
      → Framed x t.0
      → (is_empty x.resp.error ≡ true) ⊎ IsServerType x.rpc_error_type
      → Prepared x (pre_write_service server t).0
  pre_write_service-Prepared x (y, body, none) f typed =
      pre_write_done-Prepared x (do_pre_write_response (service_plugins server y) y body)
        (Framed-trans x y _ f (run_reply_hooks-Framed _ _ (service_plugins server y) y body)) typed
  pre_write_service-Prepared x (y, body, some e) f typed = record {
    req = f.req;
    seq = ap (λ r. r.seq) f.resp;
    service_method = ap (λ r. r.service_method) f.resp;
    typed = inr (11, refl, omega arith, omega arith);
  }

  pre_write-Prepared :
      (x : Context) (body : Reply)
      → (is_empty x.resp.error ≡ true) ⊎ IsServerType x.rpc_error_type
      → Prepared x (pre_write server x body).0
  pre_write-Prepared x body typed =
      pre_write_service-Prepared x (do_pre_write_response server.plugins x body)
        (run_reply_hooks-Framed _ _ server.plugins x body) typed

  prefix_type-IsWellTyped :
      (x : Context)
      → (is_empty x.resp.error ≡ true) ⊎ IsServerType x.rpc_error_type
      → IsWellTyped (prefix_type x).resp
  prefix_type-IsWellTyped x typed = elim (Bool-cases (is_empty x.resp.error)) [
    | inl empty ↦ rw empty (inl (is_empty_nil _ empty))
    | inr error ↦ elim typed [
      | inl empty ↦ cc (empty, error)
      | inr (n, kind, low, high) ↦ rw (error, kind) (inr (low, high))
    ]
  ]

  -- The responses that a call of `writeResponse` adds to what was written.
  abbrev pub Added : (Response → Type 0) → Conn → Conn → Type 0
  Added P c c' =
      (ws : List (Response × Reply)) × (c'.written ≡ ws ++ c.written)
      × (0 < length ws)
      × (length ws ≤ 2)
      × All (λ w. P w.0) ws

  pub post_write-conn :
      (c : Conn) (t : Context × Reply × Option Error) → (post_write_server server c t).0 ≡ c
  post_write-conn c (x, body, none) = refl
  post_write-conn c (x, body, some e) = refl

  write_done-Added :
      (P : Response → Type 0) (c : Conn) (x : Context) (body : Reply) (t : Option Error × Conn)
      → t.1.written ≡ (x.resp, body) ∷ c.written
      → P x.resp
      → ((text : Bytes) → P (record (x.resp) { error = 12 ∷ text }))
      → Added P c (write_done server t x body).0
  write_done-Added P c x body (none, c') e h k = (
    (x.resp, body) ∷ [],
    ap (λ c. c.written) (post_write-conn c' _) ∙ e,
    omega arith,
    omega arith,
    (h, tt),
  )
  write_done-Added P c x body (some err, c') e h k =
      let second = record (x.resp) { error = 12 ∷ error_text err } in
      (
        (second, invalid_request) ∷ (x.resp, body) ∷ [],
        write_with-written c'.writes second invalid_request c'
            ∙ ap (◌∷◌ (second, invalid_request)) e,
        omega arith,
        omega arith,
        (k (error_text err), (h, tt)),
      )

  pub set_deadline-written :
      (t : ℤ) (d : Deadline) (c : Conn) → (set_deadline t d c).written ≡ c.written
  set_deadline-written t d c = ground arith

  pub prefix_type-same :
      (x : Context)
      → ((prefix_type x).resp.seq ≡ x.resp.seq)
        × ((prefix_type x).resp.service_method ≡ x.resp.service_method)
  prefix_type-same x = ground arith

  write_response-Added :
      (c : Conn) (x : Context) (body : Reply)
      → (is_empty x.resp.error ≡ true) ⊎ IsServerType x.rpc_error_type
      → Added
          (λ r. (r.seq ≡ x.resp.seq) × (r.service_method ≡ x.resp.service_method) × IsWellTyped r)
          c
          (write_response server c x body).0
  unfolding write_response
  write_response-Added c x body typed =
      let ready = pre_write-Prepared x body typed in
      let x' = (pre_write server x body).0 in
      let same = prefix_type-same x' in
      let seq = same.0 ∙ ready.seq in
      let method = same.1 ∙ ready.service_method in
      let c1 = set_deadline server.timeout (both server.timeout) c in
      let c2 = set_deadline server.write_timeout (for_writing server.write_timeout) c1 in
      let kept =
        set_deadline-written server.write_timeout (for_writing server.write_timeout) c1
        ∙ set_deadline-written server.timeout (both server.timeout) c in
      let out = (prefix_type x').resp in
      write_done-Added _ c (prefix_type x') (pre_write server x body).1 (write out _ c2)
        (write_with-written c2.writes out _ c2 ∙ ap (◌∷◌ (out, (pre_write server x body).1)) kept)
        (seq, method, prefix_type-IsWellTyped x' ready.typed)
        (λ text. (seq, method, inr (omega arith, omega arith)))

-- There is something to send: a reply, or an error text with a server's error type between 1 and 127.
abbrev pub IsSendable : Bytes → Context → Type 0
IsSendable [] x = (v : Bytes) × (x.replyv ≡ some v)
IsSendable (b ∷ m) x = IsServerType x.rpc_error_type

-- Whatever the hooks and the codec do, for a context without an error in its response and with a reply
-- where there is no error text to send, or a server's error type between 1 and 127 where there is one:
-- an answer writes one or two responses, and each of them carries the number and the service method of
-- the request, and either no error or an error text that begins with a byte between 1 and 127.
pub send_response-Added :
    (server : Server) (c : Conn) (x : Context) (errmsg : Bytes)
    → x.resp.error ≡ []
    → IsSendable errmsg x
    → Added server
        (λ r. (r.seq ≡ x.req.seq) × (r.service_method ≡ x.req.service_method) × IsWellTyped r)
        c
        (send_response server c x errmsg).0
unfolding send_response
send_response-Added server c x [] clean sendable =
    write_response-Added server c _ _ (inl (rw clean))
send_response-Added server c x (b ∷ m) clean typed = write_response-Added server c _ _ (inr typed)
