-- ===== src/Server/Requests/Frames.antt =====
-- What the hooks leave of a context, and what reading leaves of a connection.
use myrpc.Base.{
  Bytes, List, [], ◌∷◌, Option, true, false, ◌≡◌, refl, arith, Option-cases, inl, inr, ◌∙◌,
}
use myrpc.Common.Errors.{Error}
use myrpc.Common.Wire.{Request}
use myrpc.Server.Context.{Context, View, Plugin, Conn}
use myrpc.Server.Hooks.{
  run_hooks, run_body_hooks, do_pre_read_request_body, do_post_read_request_body,
  err_pre_read_request_body, err_post_read_request_body,
}
use myrpc.Server.Requests.{Read}

pub run_hooks-req :
    (hook : Plugin → Option (Context → View × Option Error)) (text : Bytes) (ps : List Plugin)
    (x : Context)
    → (run_hooks hook text ps x).0.req ≡ x.req
unfolding run_hooks
run_hooks-req hook text [] x = refl
run_hooks-req hook text (p ∷ ps) x = elim (Option-cases (hook p)) [
  | inl skipped ↦ rw (skipped, run_hooks) (run_hooks-req hook text ps x)
  | inr (h, runs) ↦
      let rest = run_hooks-req hook text ps (record x { view = (h x).0 }) in
      elim (Option-cases (h x).1) [
        | inl fine ↦ rw (runs, run_hooks, fine) rest
        | inr (e, failing) ↦ rw (runs, run_hooks, failing)
      ]
]

run_body_hooks-req :
    (hook : Plugin → Option (Context → Bytes → View × Bytes × Option Error)) (text : Bytes)
    (ps : List Plugin) (x : Context) (body : Bytes)
    → (run_body_hooks hook text ps x body).0.req ≡ x.req
unfolding run_body_hooks
run_body_hooks-req hook text [] x body = refl
run_body_hooks-req hook text (p ∷ ps) x body = elim (Option-cases (hook p)) [
  | inl skipped ↦ rw (skipped, run_body_hooks) (run_body_hooks-req hook text ps x body)
  | inr (h, runs) ↦
      let rest = run_body_hooks-req hook text ps (record x { view = (h x body).0 }) (h x body).1 in
      elim (Option-cases (h x body).2) [
        | inl fine ↦ rw (runs, run_body_hooks, fine) rest
        | inr (e, failing) ↦ rw (runs, run_body_hooks, failing)
      ]
]

pub pre_read-req :
    (ps : List Plugin) (x : Context) (body : Bytes)
    → (do_pre_read_request_body ps x body).0.req ≡ x.req
pre_read-req = run_body_hooks-req (λ p. p.pre_read_request_body) err_pre_read_request_body

pub post_read-req :
    (ps : List Plugin) (x : Context) (body : Bytes)
    → (do_post_read_request_body ps x body).0.req ≡ x.req
post_read-req = run_body_hooks-req (λ p. p.post_read_request_body) err_post_read_request_body

-- Reading does not write.
pub record Reads (c c' : Conn) : Type 0 where
  pub written : c'.written ≡ c.written
  pub writes : c'.writes ≡ c.writes
  pub closed : c'.closed ≡ c.closed

-- A header was read: the request is the context's, and it may be answered.
pub record Went (c : Conn) (q : Request) (r : Read) : Type 0 where
  pub reads : Reads c r.conn
  pub headers : r.conn.headers ≡ c.headers
  pub keep_reading : r.keep_reading ≡ true
  pub not_send : r.not_send ≡ false
  pub req : r.ctx.req ≡ q

pub Reads-refl : (c : Conn) → Reads c c
Reads-refl c = ground arith

pub Reads-trans : (a b c : Conn) → Reads a b → Reads b c → Reads a c
Reads-trans a b c f g = record {
  written = g.written ∙ f.written;
  writes = g.writes ∙ f.writes;
  closed = g.closed ∙ f.closed;
}
