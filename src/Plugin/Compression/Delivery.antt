-- ===== src/Plugin/Compression/Delivery.antt =====
-- What has reached the connection below after some writes.
use myrpc.Base.{
  Bytes, List, [], ◌∷◌, ◌++◌, Option, none, concat, ◌≡◌, refl, ap, ◌∙◌, sym, subst, append_assoc,
  append-nil,
}
use myrpc.Common.Errors.{Error}
use myrpc.Plugin.Compression.{
  Encoder, Encoders, flushing, CompressConn, new_compress_conn, flushed, flush_write,
  compress_write, compress_writes,
}

-- A flushing writer, as flate documents it: what it has sent on after a flush decodes to all that was
-- written. `content` is what was written so far, and `emitted` what was sent on.
pub record IsFlushing {S : Type 0} (e : Encoder S) (content emitted : S → Bytes)
    (inflate : Bytes → Bytes) : Type 0 where
  pub content_start : content e.start ≡ []
  pub emitted_start : emitted e.start ≡ []
  pub put_lem :
      (s : S) (b : Bytes)
      → (content (e.put s b).0 ≡ content s ++ b)
        × (emitted (e.put s b).0 ≡ emitted s ++ (e.put s b).1)
        × ((e.put s b).2 ≡ none)
  pub flush_lem :
      (s : S)
      → (content (e.flush s).0 ≡ content s)
        × (emitted (e.flush s).0 ≡ emitted s ++ (e.flush s).1)
        × (inflate (emitted (e.flush s).0) ≡ content s)

module _ {S : Type 0} (encoders : Encoders S) where
  -- A flushing connection after a write: what it sent on is the content so far, in the code of flate.
  record Carries (content emitted : S → Bytes) (inflate : Bytes → Bytes) (so_far : Bytes)
      (c : CompressConn S) : Type 0 where
    state : S
    at_flate : c.writer ≡ flushing state
    content_now : content state ≡ so_far
    emitted_now : emitted state ≡ c.sent
    decoded : inflate c.sent ≡ so_far

  flushed-none :
      (x : S × Bytes × Option Error)
      → x.2 ≡ none
      → flushed encoders x ≡ (
        (encoders.flate.flush x.0).0,
        x.1 ++ (encoders.flate.flush x.0).1,
        (encoders.flate.flush x.0).2,
      )
  flushed-none (s, b, err) no_error = rw no_error refl

  write_flushing :
      (s : S) (b : Bytes) (c : CompressConn S)
      → c.writer ≡ flushing s
      → (encoders.flate.put s b).2 ≡ none
      → let s' = (encoders.flate.put s b).0 in
        (compress_write encoders b c).0 ≡ record c {
          writer = flushing (encoders.flate.flush s').0;
          sent = c.sent ++ ((encoders.flate.put s b).1 ++ (encoders.flate.flush s').1);
        }
  unfolding compress_write flush_write
  write_flushing s b c at_s no_error =
      rw (at_s, flushed-none (encoders.flate.put s b) no_error) refl

  write-Carries :
      (content emitted : S → Bytes) (inflate : Bytes → Bytes) (s : S) (b so_far : Bytes)
      (c : CompressConn S)
      → IsFlushing encoders.flate content emitted inflate
      → content s ≡ so_far
      → emitted s ≡ c.sent
      → c.writer ≡ flushing s
      → Carries content emitted inflate (so_far ++ b) (compress_write encoders b c).0
  write-Carries content emitted inflate s b so_far c keeps content_s emitted_s at_s =
      let (put_content, put_emitted, no_error) = keeps.put_lem s b in
      let s' = (encoders.flate.put s b).0 in
      let (flush_content, flush_emitted, flush_decoded) = keeps.flush_lem s' in
      let written = write_flushing s b c at_s no_error in
      let now = flush_content ∙ put_content ∙ ap (λ x. x ++ b) content_s in
      let out =
        flush_emitted
        ∙ ap (λ x. x ++ (encoders.flate.flush s').1)
            (put_emitted ∙ ap (λ x. x ++ (encoders.flate.put s b).1) emitted_s)
        ∙ append_assoc c.sent (encoders.flate.put s b).1 (encoders.flate.flush s').1 in
      subst (Carries content emitted inflate (so_far ++ b)) (sym written) (record {
        state = (encoders.flate.flush s').0;
        at_flate = refl;
        content_now = now;
        emitted_now = out;
        decoded = ap inflate (sym out) ∙ flush_decoded ∙ put_content ∙ ap (λ x. x ++ b) content_s;
      })

  writes-Carries :
      (content emitted : S → Bytes) (inflate : Bytes → Bytes) (bs : List Bytes) (so_far : Bytes)
      (c : CompressConn S)
      → IsFlushing encoders.flate content emitted inflate
      → Carries content emitted inflate so_far c
      → Carries content emitted inflate (so_far ++ concat bs) (compress_writes encoders bs c)
  unfolding compress_writes
  writes-Carries content emitted inflate [] so_far c keeps carries =
      subst (λ x. Carries content emitted inflate x c) (sym (append-nil so_far)) carries
  writes-Carries content emitted inflate (b ∷ bs) so_far c keeps carries =
      subst (λ x. Carries content emitted inflate x (compress_writes encoders (b ∷ bs) c))
        (append_assoc so_far b (concat bs))
        (writes-Carries content emitted inflate bs (so_far ++ b) (compress_write encoders b c).0
          keeps
          (write-Carries content emitted inflate carries.state b so_far c keeps carries.content_now
            carries.emitted_now carries.at_flate))

-- On a connection of type flate whose writer decodes to all its input after each flush, what the
-- connection below was given after one or more writes decodes to the bytes of all those writes.
pub flate_delivers :
    {S : Type 0} (encoders : Encoders S) (content emitted : S → Bytes) (inflate : Bytes → Bytes)
    (b : Bytes) (bs : List Bytes)
    → IsFlushing encoders.flate content emitted inflate
    → inflate (compress_writes encoders (b ∷ bs) (new_compress_conn encoders 1)).sent
      ≡ concat (b ∷ bs)
unfolding new_compress_conn compress_writes
flate_delivers encoders content emitted inflate b bs keeps =
    let c = new_compress_conn encoders 1 in
    let first =
      write-Carries encoders content emitted inflate encoders.flate.start b [] c keeps
        keeps.content_start keeps.emitted_start refl in
    (writes-Carries encoders content emitted inflate bs b (compress_write encoders b c).0 keeps
      first).decoded
