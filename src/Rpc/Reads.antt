-- ===== src/Rpc/Reads.antt =====
-- A request that is read without a hook, to a service that is there.
use myrpc.Base.{Bytes, List, [], ◌∷◌, Option, none, some, ◌≡◌, refl, ap, ◌∙◌, All, ℤ, arith}
use myrpc.Common.Errors.{Error}
use myrpc.Common.Wire.{Request}
use myrpc.Server.Context.{
  Context, View, Query, Plugin, Service, Server, find_service, Deadline, both, for_reading,
  HeaderRead, header, BodyRead, decoded, Conn, header_from, body_from,
}
use myrpc.Server.Hooks.{
  err_pre_read_request_header, err_post_read_request_header, err_pre_read_request_body,
  err_post_read_request_body, run_hooks, run_body_hooks, do_pre_read_request_header,
  do_pre_read_request_body, do_post_read_request_body,
}
use myrpc.Server.Requests.{
  set_deadline, found, post_header, method_parsed, header_read, pre_header, read_request_header,
  service_plugins, post_body_server, post_body, body_read, pre_body_service, pre_body,
  read_request_body, argument_read, after_header, read_request, proceed,
}
use myrpc.Rpc.{IsPlain}

run_hooks-none :
    (hook : Plugin → Option (Context → View × Option Error)) (text : Bytes) (ps : List Plugin)
    (x : Context)
    → All (λ p. hook p ≡ none) ps
    → run_hooks hook text ps x ≡ (x, none)
unfolding run_hooks
run_hooks-none hook text [] x h = refl
run_hooks-none hook text (p ∷ ps) x h = rw (run_hooks, h.0) (run_hooks-none hook text ps x h.1)

run_body_hooks-none :
    (hook : Plugin → Option (Context → Bytes → View × Bytes × Option Error)) (text : Bytes)
    (ps : List Plugin) (x : Context) (body : Bytes)
    → All (λ p. hook p ≡ none) ps
    → run_body_hooks hook text ps x body ≡ (x, body, none)
unfolding run_body_hooks
run_body_hooks-none hook text [] x body h = refl
run_body_hooks-none hook text (p ∷ ps) x body h =
    rw (run_body_hooks, h.0) (run_body_hooks-none hook text ps x body h.1)

pub All_map :
    {A : Type 0} (P Q : A → Type 0) (xs : List A) → ((a : A) → P a → Q a) → All P xs → All Q xs
All_map P Q [] f h = tt
All_map P Q (x ∷ xs) f h = (f x h.0, All_map P Q xs f h.1)

-- What the deadlines of a read leave of a connection.
pub record Same (c c' : Conn) : Type 0 where
  pub headers : c'.headers ≡ c.headers
  pub bodies : c'.bodies ≡ c.bodies
  pub writes : c'.writes ≡ c.writes
  pub written : c'.written ≡ c.written

set_deadline-Same : (t : ℤ) (d : Deadline) (c : Conn) → Same c (set_deadline t d c)
set_deadline-Same t d c = ground arith

-- The deadlines that `readRequestHeader` sets.
abbrev pub read_deadlines : Server → Conn → Conn
read_deadlines server c =
    set_deadline server.read_timeout (for_reading server.read_timeout)
      (set_deadline server.timeout (both server.timeout) c)

pub read_deadlines-Same : (server : Server) (c : Conn) → Same c (read_deadlines server c)
read_deadlines-Same server c =
    let c1 = set_deadline server.timeout (both server.timeout) c in
    let first = set_deadline-Same server.timeout (both server.timeout) c in
    let second = set_deadline-Same server.read_timeout (for_reading server.read_timeout) c1 in
    record {
      headers = second.headers ∙ first.headers;
      bodies = second.bodies ∙ first.bodies;
      writes = second.writes ∙ first.writes;
      written = second.written ∙ first.written;
    }

-- The context of a request that was read.
abbrev pub read_context : Context → Request → Bytes → Query → Bytes → Context
read_context x q path query args = record x {
  view = record (x.view) { path = path; query = query };
  req = q;
  service = some path;
  argv = some args;
}

abbrev pub header_context : Context → Request → Bytes → Query → Context
header_context x q path query = record x {
  view = record (x.view) { path = path; query = query };
  req = q;
  service = some path;
}

module _ (server : Server) (path : Bytes) (query : Query) (service : Service)
    (there : find_service path server.services ≡ some service) (plain : All IsPlain server.plugins)
    (plain_service : All IsPlain service.plugins) where
  header_lem :
      (c : Conn) (x : Context) (q : Request) (hs : List HeaderRead)
      → c.headers ≡ header q ∷ hs
      → server.uri_parse q.service_method ≡ (path, query, none)
      → pre_header server c (do_pre_read_request_header server.plugins x)
        ≡ proceed (record c { headers = hs }) (header_context x q path query)
  header_lem c x q hs arrives parsed =
      let c' : Conn = record c { headers = hs } in
      let x' : Context = record x {
        view = record (x.view) { path = path; query = query };
        req = q;
      } in
      ap (pre_header server c) (
        run_hooks-none (λ p. p.pre_read_request_header) err_pre_read_request_header server.plugins x
          (All_map IsPlain (λ p. p.pre_read_request_header ≡ none) server.plugins
            (λ p h. h.pre_header) plain))
      ∙ ap (λ hs'. header_read server (header_from hs' c).0 (header_from hs' c).1 x) arrives
      ∙ ap (method_parsed server c' (record x { req = q })) parsed
      ∙ ap (post_header server c') (
          run_hooks-none (λ p. p.post_read_request_header) err_post_read_request_header
            server.plugins x'
            (All_map IsPlain (λ p. p.post_read_request_header ≡ none) server.plugins
              (λ p h. h.post_header) plain))
      ∙ ap (λ o. found server o c' x') there

  pub plugins_lem :
      (x : Context) → x.service ≡ some path → service_plugins server x ≡ service.plugins
  plugins_lem x here =
      ap
        (λ o. elim o [
          | none ↦ []
          | some key ↦ elim (find_service key server.services) [ none ↦ [] | some s ↦ s.plugins ]
        ])
        here
      ∙ ap (λ o. elim o [ none ↦ [] | some s ↦ s.plugins ]) there

  body_lem :
      (c : Conn) (x : Context) (args : Bytes) (bs : List BodyRead)
      → x.service ≡ some path
      → c.bodies ≡ decoded args ∷ bs
      → read_request_body server c x [] ≡ (record c { bodies = bs }, x, args, none)
  unfolding read_request_body
  body_lem c x args bs here arrives =
      let c' : Conn = record c { bodies = bs } in
      let own = plugins_lem x here in
      let before = λ (ps : List Plugin) (h : All IsPlain ps).
        run_body_hooks-none (λ p. p.pre_read_request_body) err_pre_read_request_body ps x []
          (All_map IsPlain (λ p. p.pre_read_request_body ≡ none) ps (λ p h. h.pre_body) h) in
      let behind = λ (ps : List Plugin) (h : All IsPlain ps).
        run_body_hooks-none (λ p. p.post_read_request_body) err_post_read_request_body ps x args
          (All_map IsPlain (λ p. p.post_read_request_body ≡ none) ps (λ p h. h.post_body) h) in
      ap (pre_body server c) (before server.plugins plain)
      ∙ ap (λ ps. pre_body_service server c (do_pre_read_request_body ps x [])) own
      ∙ ap (pre_body_service server c) (before service.plugins plain_service)
      ∙ ap (λ bs'. body_read server (body_from bs' c).0 (body_from bs' c).1 x []) arrives
      ∙ ap (λ ps. post_body server c' (do_post_read_request_body ps x args)) own
      ∙ ap (post_body server c') (behind service.plugins plain_service)
      ∙ ap (post_body_server server c') (behind server.plugins plain)

  -- A request whose header and body arrive is read whole.
  pub read_request_lem :
      (c : Conn) (x : Context) (q : Request) (args : Bytes) (hs : List HeaderRead)
      (bs : List BodyRead)
      → c.headers ≡ header q ∷ hs
      → c.bodies ≡ decoded args ∷ bs
      → server.uri_parse q.service_method ≡ (path, query, none)
      → read_request server c x
        ≡ proceed
            (record (read_deadlines server c) { headers = hs; bodies = bs })
            (read_context x q path query args)
  unfolding read_request read_request_header
  read_request_lem c x q args hs bs arrives body parsed =
      let c2 = read_deadlines server c in
      let same = read_deadlines-Same server c in
      ap (λ r. after_header server r.err r) (header_lem c2 x q hs (same.headers ∙ arrives) parsed)
      ∙ ap (argument_read server) (
          body_lem (record c2 { headers = hs }) (header_context x q path query) args bs refl
            (same.bodies ∙ body))
