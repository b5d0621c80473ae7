-- ===== src/Server/Responses/Once.antt =====
-- The response that an answer writes, writeResponse to call, over a codec that does not fail.
use myrpc.Base.{ℕ, Bytes, List, [], ◌∷◌, Option, none, some, ◌≡◌, refl, ap, ◌∙◌, ℤ, arith}
use myrpc.Common.Errors.{Error}
use myrpc.Common.Wire.{Response}
use myrpc.Server.Context.{
  Context, Reply, invalid_request, Server, Conn, write_with, Deadline, both, for_writing, Called,
  replied, failed, panicked,
}
use myrpc.Server.Hooks.{do_pre_write_response, do_post_write_response}
use myrpc.Server.Requests.{set_deadline, service_plugins}
use myrpc.Server.Responses.{
  write_done, prefix_type, pre_write_done, pre_write_service, pre_write, write_response,
  send_response, answer_called, run_method, call,
}
use myrpc.Server.Responses.Answers.{run_reply_hooks-Framed, post_write-conn, prefix_type-same}

-- `c'` is `c` with one response of number `seq` written.
pub record OneSent (c : Conn) (seq : ℕ) (c' : Conn) : Type 0 where
  pub response : Response
  pub body : Reply
  pub written : c'.written ≡ (response, body) ∷ c.written
  pub seq_lem : response.seq ≡ seq
  pub headers : c'.headers ≡ c.headers
  pub writes : c'.writes ≡ []
  pub closed : c'.closed ≡ c.closed

-- What setting a deadline leaves.
record Same (c c' : Conn) : Type 0 where
  written : c'.written ≡ c.written
  headers : c'.headers ≡ c.headers
  writes : c'.writes ≡ c.writes
  closed : c'.closed ≡ c.closed

Same-trans : (a b c : Conn) → Same a b → Same b c → Same a c
Same-trans a b c f g = record {
  written = g.written ∙ f.written;
  headers = g.headers ∙ f.headers;
  writes = g.writes ∙ f.writes;
  closed = g.closed ∙ f.closed;
}

Same-OneSent : (a b c : Conn) {seq : ℕ} → Same a b → OneSent b seq c → OneSent a seq c
Same-OneSent a b c kept sent = record {
  response = sent.response;
  body = sent.body;
  written = sent.written ∙ ap (◌∷◌ (sent.response, sent.body)) kept.written;
  seq_lem = sent.seq_lem;
  headers = sent.headers ∙ kept.headers;
  writes = sent.writes;
  closed = sent.closed ∙ kept.closed;
}

module _ (server : Server) where
  pre_write_done-seq :
      (t : Context × Reply × Option Error) → (pre_write_done server t).0.resp.seq ≡ t.0.resp.seq
  pre_write_done-seq (x, body, none) = refl
  pre_write_done-seq (x, body, some e) = refl

  pre_write_service-seq :
      (t : Context × Reply × Option Error) → (pre_write_service server t).0.resp.seq ≡ t.0.resp.seq
  pre_write_service-seq (x, body, none) =
      pre_write_done-seq (do_pre_write_response (service_plugins server x) x body)
      ∙ ap (λ r. r.seq) ((run_reply_hooks-Framed _ _ (service_plugins server x) x body).resp)
  pre_write_service-seq (x, body, some e) = refl

  pre_write-seq : (x : Context) (body : Reply) → (pre_write server x body).0.resp.seq ≡ x.resp.seq
  pre_write-seq x body =
      pre_write_service-seq (do_pre_write_response server.plugins x body)
      ∙ ap (λ r. r.seq) ((run_reply_hooks-Framed _ _ server.plugins x body).resp)

  set_deadline-Same : (t : ℤ) (d : Deadline) (c : Conn) → Same c (set_deadline t d c)
  set_deadline-Same t d c = ground arith

  write_with-OneSent :
      (c : Conn) (x : Context) (body : Reply) (seq : ℕ) (ws : List (Option Error))
      → ws ≡ []
      → c.writes ≡ []
      → x.resp.seq ≡ seq
      → OneSent c seq (write_done server (write_with ws x.resp body c) x body).0
  write_with-OneSent c x body seq [] none_fails ready e =
      let kept =
        post_write-conn server (record c { written = (x.resp, body) ∷ c.written })
          (do_post_write_response (service_plugins server x) x body) in
      record {
        response = x.resp;
        body = body;
        written = ap (λ c. c.written) kept;
        seq_lem = e;
        headers = ap (λ c. c.headers) kept;
        writes = ap (λ c. c.writes) kept ∙ ready;
        closed = ap (λ c. c.closed) kept;
      }
  write_with-OneSent c x body seq (w ∷ ws) none_fails ready e = ground arith

  write_response-OneSent :
      (c : Conn) (x : Context) (body : Reply)
      → c.writes ≡ []
      → OneSent c x.resp.seq (write_response server c x body).0
  unfolding write_response
  write_response-OneSent c x body ready =
      let c1 = set_deadline server.timeout (both server.timeout) c in
      let c2 = set_deadline server.write_timeout (for_writing server.write_timeout) c1 in
      let kept1 = set_deadline-Same server.timeout (both server.timeout) c in
      let kept2 = set_deadline-Same server.write_timeout (for_writing server.write_timeout) c1 in
      let works = kept2.writes ∙ kept1.writes ∙ ready in
      let (x', body') = pre_write server x body in
      let seq = (prefix_type-same server x').0 ∙ pre_write-seq x body in
      Same-OneSent c c2 _ (Same-trans c c1 c2 kept1 kept2)
        (write_with-OneSent c2 (prefix_type x') body' x.resp.seq c2.writes works works seq)

  pub send_response-OneSent :
      (c : Conn) (x : Context) (errmsg : Bytes)
      → c.writes ≡ []
      → OneSent c x.req.seq (send_response server c x errmsg).0
  unfolding send_response
  send_response-OneSent c x errmsg ready = write_response-OneSent c _ _ ready

  answer_called-OneSent :
      (c : Conn) (x : Context) (did : Called)
      → c.writes ≡ []
      → OneSent c x.req.seq (answer_called server c x did).0
  answer_called-OneSent c x (replied v) ready = send_response-OneSent c _ _ ready
  answer_called-OneSent c x (failed v e) ready = send_response-OneSent c _ _ ready
  answer_called-OneSent c x panicked ready = send_response-OneSent c _ _ ready

  pub call-OneSent :
      (c : Conn) (x : Context) → c.writes ≡ [] → OneSent c x.req.seq (call server c x).0
  unfolding call
  call-OneSent c x ready = answer_called-OneSent c x (run_method server x) ready

-- An answer takes no header, whether the codec fails or not.
module _ (server : Server) where
  write_with-headers :
      (ws : List (Option Error)) (r : Response) (body : Reply) (c : Conn)
      → (write_with ws r body c).1.headers ≡ c.headers
  write_with-headers [] r body c = refl
  write_with-headers (w ∷ ws) r body c = refl

  write_done-headers :
      (c : Conn) (x : Context) (body : Reply) (t : Option Error × Conn)
      → t.1.headers ≡ c.headers
      → (write_done server t x body).0.headers ≡ c.headers
  write_done-headers c x body (none, c') e = ap (λ c. c.headers) (post_write-conn server c' _) ∙ e
  write_done-headers c x body (some w, c') e = write_with-headers c'.writes _ invalid_request c' ∙ e

  pub send_response-headers :
      (c : Conn) (x : Context) (errmsg : Bytes)
      → (send_response server c x errmsg).0.headers ≡ c.headers
  unfolding send_response write_response
  send_response-headers c x errmsg =
      let c1 = set_deadline server.timeout (both server.timeout) c in
      let c2 = set_deadline server.write_timeout (for_writing server.write_timeout) c1 in
      let kept1 = set_deadline-Same server server.timeout (both server.timeout) c in
      let kept2 =
        set_deadline-Same server server.write_timeout (for_writing server.write_timeout) c1 in
      write_done-headers c _ _ (write_with c2.writes _ _ c2)
        (write_with-headers c2.writes _ _ c2 ∙ kept2.headers ∙ kept1.headers)

  answer_called-headers :
      (c : Conn) (x : Context) (did : Called) → (answer_called server c x did).0.headers ≡ c.headers
  answer_called-headers c x (replied v) = send_response-headers c _ _
  answer_called-headers c x (failed v e) = send_response-headers c _ _
  answer_called-headers c x panicked = send_response-headers c _ _

  pub call-headers : (c : Conn) (x : Context) → (call server c x).0.headers ≡ c.headers
  unfolding call
  call-headers c x = answer_called-headers c x (run_method server x)
