-- ===== src/Server/Requests/Reading.antt =====
-- What readRequest takes from the connection, and what it leaves in the context.
use myrpc.Base.{
  Bytes, List, [], ◌∷◌, Option, none, some, false, ◌≡◌, refl, arith, ℤ, inl, inr, ◌∙◌, sym, ◌⊎◌,
}
use myrpc.Common.Errors.{Error, eof, unexpected_eof, message}
use myrpc.Common.Wire.{Request}
use myrpc.Server.Context.{
  Context, Query, Server, Service, HeaderRead, header, no_header, BodyRead, decoded, undecoded,
  Conn, Deadline, body_from, header_from, both, for_reading,
}
use myrpc.Server.Hooks.{
  do_pre_read_request_header, do_pre_read_request_body, do_post_read_request_body,
}
use myrpc.Server.Requests.{
  set_deadline, Read, found, post_header, method_parsed, header_read, pre_header, service_plugins,
  BodyState, post_body_server, post_body, body_read, pre_body_service, pre_body, read_request_body,
  after_header, read_request,
}
use myrpc.Server.Requests.Frames.{
  run_hooks-req, pre_read-req, post_read-req, Reads, Went, Reads-refl, Reads-trans,
}

module _ (server : Server) where
  found-Went : (o : Option Service) (c : Conn) (x : Context) → Went c x.req (found server o c x)
  found-Went none c x = ground arith
  found-Went (some s) c x = ground arith

  post_header-Went :
      (c : Conn) (t : Context × Option Error) (q : Request)
      → t.0.req ≡ q
      → Went c q (post_header server c t)
  post_header-Went c (x, none) q e = rw (← e) (found-Went _ c x)
  post_header-Went c (x, some err) q e = ground arith

  method_parsed-Went :
      (c : Conn) (x : Context) (t : Bytes × Query × Option Error)
      → Went c x.req (method_parsed server c x t)
  method_parsed-Went c x (path, query, none) =
      post_header-Went c _ x.req (run_hooks-req _ _ server.plugins _)
  method_parsed-Went c x (path, query, some e) = ground arith

  -- Either a header was taken from the connection, or the loop is to end, with at most a failed read.
  pub data Outcome (c : Conn) (r : Read) : Type 0 where
    taken :
        (q : Request) (hs : List HeaderRead)
        → c.headers ≡ header q ∷ hs
        → Went (record c { headers = hs }) q r
        → Outcome c r
    ended :
        r.keep_reading ≡ false
        → (e : Error) → r.err ≡ some e
        → Reads c r.conn
        → (r.conn.headers ≡ c.headers) ⊎ ((e : Error) × (c.headers ≡ no_header e ∷ r.conn.headers))
        → Outcome c r

  header_from-Outcome :
      (c : Conn) (hs : List HeaderRead) (x : Context)
      → c.headers ≡ hs
      → Outcome c (header_read server (header_from hs c).0 (header_from hs c).1 x)
  header_from-Outcome c [] x e = ended refl _ refl (Reads-refl c) (inl refl)
  header_from-Outcome c (header q ∷ hs) x e =
      taken q hs e (method_parsed-Went (record c { headers = hs }) (record x { req = q }) _)
  header_from-Outcome c (no_header eof ∷ hs) x e = ended refl _ refl (ground arith) (inr (eof, e))
  header_from-Outcome c (no_header unexpected_eof ∷ hs) x e =
      ended refl _ refl (ground arith) (inr (unexpected_eof, e))
  header_from-Outcome c (no_header (message m) ∷ hs) x e =
      ended refl _ refl (ground arith) (inr (message m, e))

  pre_header-Outcome : (c : Conn) (t : Context × Option Error) → Outcome c (pre_header server c t)
  pre_header-Outcome c (x, none) = header_from-Outcome c c.headers x refl
  pre_header-Outcome c (x, some e) = ended refl e refl (Reads-refl c) (inl refl)

  -- The stages of the body leave the headers and the request.
  record Kept (c : Conn) (x : Context) (t : BodyState) : Type 0 where
    reads : Reads c t.0
    headers : t.0.headers ≡ c.headers
    req : t.1.req ≡ x.req

  Kept-req : (c : Conn) (x y : Context) (t : BodyState) → y.req ≡ x.req → Kept c y t → Kept c x t
  Kept-req c x y t e k = record { reads = k.reads; headers = k.headers; req = k.req ∙ e }

  post_body_server-Kept :
      (c : Conn) (t : Context × Bytes × Option Error) → Kept c t.0 (post_body_server server c t)
  post_body_server-Kept c (x, body, none) = ground arith
  post_body_server-Kept c (x, body, some e) = ground arith

  post_body-Kept :
      (c : Conn) (t : Context × Bytes × Option Error) → Kept c t.0 (post_body server c t)
  post_body-Kept c (x, body, none) =
      let t = do_post_read_request_body server.plugins x body in
      Kept-req c x t.0 (post_body_server server c t) (post_read-req server.plugins x body)
        (post_body_server-Kept c t)
  post_body-Kept c (x, body, some e) = ground arith

  body_from-Kept :
      (c : Conn) (bs : List BodyRead) (x : Context) (body : Bytes)
      → Kept c x (body_read server (body_from bs c).0 (body_from bs c).1 x body)
  body_from-Kept c [] x body = ground arith
  body_from-Kept c (undecoded e ∷ bs) x body = ground arith
  body_from-Kept c (decoded b ∷ bs) x body =
      let c' = record c { bodies = bs } in
      let t = do_post_read_request_body (service_plugins server x) x b in
      let k =
        Kept-req c' x t.0 (post_body server c' t) (post_read-req (service_plugins server x) x b)
          (post_body-Kept c' t) in
      record { reads = Reads-trans c c' _ (ground arith) k.reads; headers = k.headers; req = k.req }

  pre_body_service-Kept :
      (c : Conn) (t : Context × Bytes × Option Error) → Kept c t.0 (pre_body_service server c t)
  pre_body_service-Kept c (x, body, none) = body_from-Kept c c.bodies x body
  pre_body_service-Kept c (x, body, some e) = ground arith

  pre_body-Kept : (c : Conn) (t : Context × Bytes × Option Error) → Kept c t.0 (pre_body server c t)
  pre_body-Kept c (x, body, none) =
      let t = do_pre_read_request_body (service_plugins server x) x body in
      Kept-req c x t.0 (pre_body_service server c t)
        (pre_read-req (service_plugins server x) x body) (pre_body_service-Kept c t)
  pre_body-Kept c (x, body, some e) = ground arith

  read_request_body-Kept :
      (c : Conn) (x : Context) (body : Bytes) → Kept c x (read_request_body server c x body)
  unfolding read_request_body
  read_request_body-Kept c x body =
      let t = do_pre_read_request_body server.plugins x body in
      Kept-req c x t.0 (pre_body server c t) (pre_read-req server.plugins x body)
        (pre_body-Kept c t)

  discarded-headers :
      (c : Conn) (bs : List BodyRead)
      → Reads c (body_from bs c).1 × ((body_from bs c).1.headers ≡ c.headers)
  discarded-headers c [] = (Reads-refl c, refl)
  discarded-headers c (b ∷ bs) = (ground arith, refl)

  after_header-Went :
      (c : Conn) (q : Request) (r : Read) (err : Option Error)
      → Went c q r
      → Went c q (after_header server err r)
  after_header-Went c q r none w =
      let k = read_request_body-Kept r.conn r.ctx [] in
      record {
        reads = Reads-trans c r.conn _ w.reads k.reads;
        headers = k.headers ∙ w.headers;
        keep_reading = refl;
        not_send = refl;
        req = k.req ∙ w.req;
      }
  after_header-Went c q r (some e) w =
      let (reads, headers) = discarded-headers r.conn r.conn.bodies in
      simp w.keep_reading (record {
        reads = Reads-trans c r.conn _ w.reads reads;
        headers = headers ∙ w.headers;
        keep_reading = refl;
        not_send = w.not_send;
        req = w.req;
      })

  after_header-Outcome :
      (c : Conn) (r : Read) → Outcome c r → Outcome c (after_header server r.err r)
  after_header-Outcome c r (taken q hs e w) = taken q hs e (after_header-Went _ q r r.err w)
  after_header-Outcome c r (ended stops e err reads left) =
      rw (err, stops) (ended refl e refl reads left)

  set_deadline-Reads :
      (t : ℤ) (d : Deadline) (c : Conn)
      → Reads c (set_deadline t d c) × ((set_deadline t d c).headers ≡ c.headers)
  set_deadline-Reads t d c = ground arith

  Outcome-start :
      (c c' : Conn) (r : Read) → Reads c c' → c'.headers ≡ c.headers → Outcome c' r → Outcome c r
  Outcome-start c c' r reads same (taken q hs e w) = taken q hs (sym same ∙ e) (record {
    reads = record {
      written = w.reads.written ∙ reads.written;
      writes = w.reads.writes ∙ reads.writes;
      closed = w.reads.closed ∙ reads.closed;
    };
    headers = w.headers;
    keep_reading = w.keep_reading;
    not_send = w.not_send;
    req = w.req;
  })
  Outcome-start c c' r reads same (ended stops e err more (inl none_read)) =
      ended stops e err (Reads-trans c c' _ reads more) (inl (none_read ∙ same))
  Outcome-start c c' r reads same (ended stops e err more (inr (bad, read))) =
      ended stops e err (Reads-trans c c' _ reads more) (inr (bad, sym same ∙ read))

  -- Whatever the hooks, the services and the codec do: `readRequest` takes a header from the
  -- connection, keeps its request in the context and says that it may be answered; or it asks for
  -- the end of the loop, with an error, and has taken no header but at most a failed one. It
  -- writes and closes nothing.
  pub read_request-Outcome : (c : Conn) (x : Context) → Outcome c (read_request server c x)
  unfolding read_request
  read_request-Outcome c x =
      let c1 = set_deadline server.timeout (both server.timeout) c in
      let c2 = set_deadline server.read_timeout (for_reading server.read_timeout) c1 in
      let (reads1, same1) = set_deadline-Reads server.timeout (both server.timeout) c in
      let (reads2, same2) =
        set_deadline-Reads server.read_timeout (for_reading server.read_timeout) c1 in
      Outcome-start c c2 _ (Reads-trans c c1 c2 reads1 reads2) (same2 ∙ same1) (
        after_header-Outcome c2 _
          (pre_header-Outcome c2 (do_pre_read_request_header server.plugins x)))
