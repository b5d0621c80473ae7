-- ===== src/Codec/Gob/Orderly.antt =====
-- What the gob codec of a server puts on the wire: whole responses.
use myrpc.Base.{
  suc, Bytes, List, [], ◌∷◌, ◌++◌, Option, none, some, true, false, if◌then◌else◌, ◌≡◌, refl, ap,
  ◌∙◌, sym, subst, arith, append-nil,
}
use myrpc.Common.Errors.{Error}
use myrpc.Codec.Wire.{Link}
use myrpc.Codec.Wire as Wire
use myrpc.Codec.Buffered.{Writer, flush}
use myrpc.Codec.Buffered.Streams.{
  sent, stream, IsSound, Grew, Grew-trans, flush-closed, write-closed,
}
use myrpc.Codec.Gob.{
  Encoded, new_writer, encode, ServerCodec, new_gob_server_codec, close, broken, reply_encoded,
  response_encoded, write_response,
}
use myrpc.Codec.Gob.Requests.{encode-Grew, flush-Grew}

-- What a program does with a server's codec.
pub data Op : Type 0 where
  responds : Encoded → Encoded → Op
  closes : Op

unfoldable pub run : ServerCodec → List Op → ServerCodec
run c [] = c
run c (responds header body ∷ ops) = run (write_response header body c).1 ops
run c (closes ∷ ops) = run (close c) ops

-- The bytes of responses that were all encoded, while nothing was closed.
abbrev pub frame : Op → Option Bytes
frame (responds (h, none) (b, none)) = some (h ++ b)
frame (responds _ _) = none
frame closes = none

abbrev pub frames_from : Option Bytes → List Op → Option Bytes
frames_from none ops = none
frames_from (some p) [] = some p
frames_from (some p) (op ∷ ops) =
    frames_from (elim (frame op) [ none ↦ none | some q ↦ some (p ++ q) ]) ops

-- A codec on a new connection, after `ops`: open, with whole responses on the wire and nothing else
-- anywhere; or closed, its connection closed once.
abbrev pub Orderly : Option Bytes → Link → ServerCodec → Type 0
Orderly (some p) l c =
    (c.closed ≡ false)
    × (c.writer.link.closed ≡ l.closed)
    × (c.writer.buffered ≡ [])
    × (sent c.writer.link.out ≡ sent l.out ++ p)
Orderly none l c = (c.closed ≡ true) × (c.writer.link.closed ≡ suc l.closed)

-- A codec was closed, with its connection.
abbrev pub Shut : ServerCodec → ServerCodec → Type 0
Shut c c' = (c'.closed ≡ true) × (c'.writer.link.closed ≡ suc c.writer.link.closed)

-- What a response leaves of an open codec.
abbrev pub Wrote : Option Error → Bytes → ServerCodec → ServerCodec → Type 0
Wrote (some e) p c c' = Shut c c'
Wrote none p c c' = (c'.closed ≡ false) × Grew p c.writer c'.writer × (c'.writer.buffered ≡ [])

close-Shut : (c : ServerCodec) → c.closed ≡ false → Shut c (close c)
unfolding close
close-Shut c open_yet =
    subst
      (λ b. Shut c (
        if b then c else record c {
          closed = true;
          writer = record (c.writer) { link = Wire.close c.writer.link };
        }))
      (sym open_yet) (refl, refl)

broken-Shut :
    (c : ServerCodec) (e : Error) (p : Bytes) (w : Writer)
    → c.closed ≡ false
    → Grew p c.writer w
    → Shut c (broken e (record c { writer = w })).1
broken-Shut c e p w open_yet g =
    let (emptied, _) = flush-Grew p c.writer w g in
    let c' : ServerCodec = record c { writer = flush w } in
    subst (λ o. Shut c (elim o [ none ↦ close c' | some x ↦ c' ])) (sym emptied.sound.failure)
      (let (shut, once) = close-Shut c' open_yet in (shut, once ∙ ap suc emptied.closed))

reply_encoded-Wrote :
    (p : Bytes) (f : Option Error) (c : ServerCodec) (t : Option Error × Writer)
    → c.closed ≡ false
    → t.0 ≡ f
    → Grew p c.writer t.1
    → Wrote f p c (reply_encoded c t).1
reply_encoded-Wrote p none c (none, w) open_yet e g =
    let (grew, empty) = flush-Grew p c.writer w g in (open_yet, grew, empty)
reply_encoded-Wrote p (some x) c (none, w) open_yet e g = cc
reply_encoded-Wrote p none c (some y, w) open_yet e g = cc
reply_encoded-Wrote p (some x) c (some y, w) open_yet e g = broken-Shut c y p w open_yet g

-- What a response with a header and a body leaves.
abbrev Responded : Encoded → Encoded → ServerCodec → ServerCodec → Type 0
Responded (h, some e) (b, f) c c' = Shut c c'
Responded (h, none) (b, f) c c' = Wrote f (h ++ b) c c'

response_encoded-Responded :
    (header body : Encoded) (c : ServerCodec) (t : Option Error × Writer)
    → c.closed ≡ false
    → t.0 ≡ header.1
    → Grew header.0 c.writer t.1
    → Responded header body c (response_encoded body c t).1
response_encoded-Responded (h, some x) (b, f) c (none, w) open_yet e g = cc
response_encoded-Responded (h, some x) (b, f) c (some y, w) open_yet e g =
    broken-Shut c y h w open_yet g
response_encoded-Responded (h, none) (b, f) c (some y, w) open_yet e g = cc
response_encoded-Responded (h, none) (b, f) c (none, w) open_yet e g =
    let (e', g') = encode-Grew (b, f) w g.sound in
    reply_encoded-Wrote (h ++ b) f c (encode (b, f) w) open_yet e'
      (Grew-trans h b c.writer w _ g g')

write_response-Responded :
    (header body : Encoded) (c : ServerCodec)
    → c.closed ≡ false
    → IsSound c.writer
    → Responded header body c (write_response header body c).1
unfolding write_response
write_response-Responded header body c open_yet ok =
    let (e, g) = encode-Grew header c.writer ok in
    response_encoded-Responded header body c (encode header c.writer) open_yet e g

-- Nothing closes a connection again.
abbrev Stays : ServerCodec → ServerCodec → Type 0
Stays c c' = (c'.closed ≡ true) × (c'.writer.link.closed ≡ c.writer.link.closed)

encode-closed : (v : Encoded) (w : Writer) → (encode v w).1.link.closed ≡ w.link.closed
unfolding encode
encode-closed v w = write-closed v.0 w

close-Stays : (c : ServerCodec) → c.closed ≡ true → Stays c (close c)
unfolding close
close-Stays c shut =
    subst
      (λ b. Stays c (
        if b then c else record c {
          closed = true;
          writer = record (c.writer) { link = Wire.close c.writer.link };
        }))
      (sym shut) (shut, refl)

either-Stays :
    (o : Option Error) (c c1 c2 : ServerCodec)
    → Stays c c1
    → Stays c c2
    → let c' : ServerCodec = elim o [ none ↦ c1 | some e ↦ c2 ] in Stays c c'
either-Stays none c c1 c2 h k = h
either-Stays (some e) c c1 c2 h k = k

broken-Stays : (e : Error) (c : ServerCodec) → c.closed ≡ true → Stays c (broken e c).1
broken-Stays e c shut =
    let c' : ServerCodec = record c { writer = flush c.writer } in
    let kept = flush-closed c.writer in
    let (s, n) = close-Stays c' shut in
    either-Stays (flush c.writer).failure c (close c') c' (s, n ∙ kept) (shut, kept)

reply_encoded-Stays :
    (c : ServerCodec) (t : Option Error × Writer)
    → c.closed ≡ true
    → t.1.link.closed ≡ c.writer.link.closed
    → Stays c (reply_encoded c t).1
reply_encoded-Stays c (none, w) shut kept = (shut, flush-closed w ∙ kept)
reply_encoded-Stays c (some e, w) shut kept =
    let (s, n) = broken-Stays e (record c { writer = w }) shut in (s, n ∙ kept)

response_encoded-Stays :
    (body : Encoded) (c : ServerCodec) (t : Option Error × Writer)
    → c.closed ≡ true
    → t.1.link.closed ≡ c.writer.link.closed
    → Stays c (response_encoded body c t).1
response_encoded-Stays body c (none, w) shut kept =
    reply_encoded-Stays c (encode body w) shut (encode-closed body w ∙ kept)
response_encoded-Stays body c (some e, w) shut kept =
    let (s, n) = broken-Stays e (record c { writer = w }) shut in (s, n ∙ kept)

run-Stays : (ops : List Op) (c : ServerCodec) → c.closed ≡ true → Stays c (run c ops)
unfolding run write_response
run-Stays [] c shut = (shut, refl)
run-Stays (responds header body ∷ ops) c shut =
    let (s, n) =
      response_encoded-Stays body c (encode header c.writer) shut (encode-closed header c.writer) in
    let (s', n') = run-Stays ops (write_response header body c).1 s in (s', n' ∙ n)
run-Stays (closes ∷ ops) c shut =
    let (s, n) = close-Stays c shut in let (s', n') = run-Stays ops (close c) s in (s', n' ∙ n)

run-Shut :
    (ops : List Op) (c c' : ServerCodec)
    → Shut c c'
    → ((run c' ops).closed ≡ true) × ((run c' ops).writer.link.closed ≡ suc c.writer.link.closed)
run-Shut ops c c' (shut, once) = let (s, n) = run-Stays ops c' shut in (s, n ∙ once)

frames_lem :
    (l : Link) (p : Bytes) (ops : List Op) (c : ServerCodec)
    → c.closed ≡ false
    → c.writer.buffered ≡ []
    → Grew p (new_writer l) c.writer
    → Orderly (frames_from (some p) ops) l (run c ops)
unfolding run
frames_lem l p [] c open_yet empty g = (
  open_yet,
  g.closed,
  empty,
  sym (append-nil (sent c.writer.link.out))
      ∙ ap (λ b. sent c.writer.link.out ++ b) (sym empty)
      ∙ g.stream_lem
      ∙ ap (λ s. s ++ p) (append-nil (sent l.out)),
)
frames_lem l p (responds (h, none) (b, none) ∷ ops) c open_yet empty g =
    let (o, grew, e) = write_response-Responded (h, none) (b, none) c open_yet g.sound in
    frames_lem l (p ++ (h ++ b)) ops (write_response (h, none) (b, none) c).1 o e
      (Grew-trans p (h ++ b) (new_writer l) c.writer _ g grew)
frames_lem l p (responds (h, none) (b, some x) ∷ ops) c open_yet empty g =
    let (s, n) = write_response-Responded (h, none) (b, some x) c open_yet g.sound in
    run-Shut ops (new_gob_server_codec l) _ (s, n ∙ ap suc g.closed)
frames_lem l p (responds (h, some x) (b, f) ∷ ops) c open_yet empty g =
    let (s, n) = write_response-Responded (h, some x) (b, f) c open_yet g.sound in
    run-Shut ops (new_gob_server_codec l) _ (s, n ∙ ap suc g.closed)
frames_lem l p (closes ∷ ops) c open_yet empty g =
    let (s, n) = close-Shut c open_yet in
    run-Shut ops (new_gob_server_codec l) _ (s, n ∙ ap suc g.closed)

-- On a new connection that takes all that is written, whatever responses are written and however
-- often Close is called: as long as every response was encoded and nothing was closed, the codec is
-- open, its buffer is empty and the wire has exactly the responses' headers and bodies, in order; from
-- the first response that was not encoded, or the first Close, on, the codec is closed, and its
-- connection was closed once.
pub run-Orderly :
    (l : Link) (ops : List Op)
    → l.takes ≡ []
    → Orderly (frames_from (some []) ops) l (run (new_gob_server_codec l) ops)
run-Orderly l ops ready = frames_lem l [] ops (new_gob_server_codec l) refl refl (record {
  sound = record { takes = ready; failure = refl; fits = omega arith };
  stream_lem = sym (append-nil (stream (new_writer l)));
  closed = refl;
})
