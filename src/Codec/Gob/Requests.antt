-- ===== src/Codec/Gob/Requests.antt =====
-- What the gob codec of a client puts on the wire: whole requests, or half of one in front of another.
use myrpc.Base.{Bytes, [], ◌++◌, Option, none, some, ◌≡◌, ap, ◌∙◌, sym, subst, append-nil}
use myrpc.Common.Errors.{Error}
use myrpc.Codec.Buffered.{Writer, flush}
use myrpc.Codec.Buffered.Streams.{
  sent, stream, IsSound, Grew, Grew-trans, flush-Emptied, write-Grew,
}
use myrpc.Codec.Gob.{Encoded, encode, body_encoded, header_encoded, write_request}

pub encode-Grew :
    (v : Encoded) (w : Writer) → IsSound w → ((encode v w).0 ≡ v.1) × Grew v.0 w (encode v w).1
unfolding encode
encode-Grew v w h =
    let g = write-Grew v.0 w h in
    (ap (λ o. elim o [ none ↦ v.1 | some e ↦ some e ]) g.sound.failure, g)

pub flush-Grew :
    (p : Bytes) (u w : Writer) → Grew p u w → Grew p u (flush w) × ((flush w).buffered ≡ [])
flush-Grew p u w g =
    let (emptied, empty) = flush-Emptied w g.sound in
    (
      subst (λ q. Grew q u (flush w)) (append-nil p) (Grew-trans p [] u w (flush w) g emptied),
      empty,
    )

-- Where a message's encoding ended with an error or none, behind the bytes `p`.
abbrev pub Ended : Bytes → Option Error → Writer → Option Error × Writer → Type 0
Ended p (some e) w (err, w') = (err ≡ some e) × Grew p w w'
Ended p none w (err, w') = (err ≡ none) × Grew p w w' × (w'.buffered ≡ [])

-- What a request with a header and a body leaves.
abbrev pub Requested : Encoded → Encoded → Writer → Option Error × Writer → Type 0
Requested (h, some e) (b, f) w t = Ended h (some e) w t
Requested (h, none) (b, f) w t = Ended (h ++ b) f w t

body_encoded-Ended :
    (p : Bytes) (f : Option Error) (w : Writer) (t : Option Error × Writer)
    → t.0 ≡ f
    → Grew p w t.1
    → Ended p f w (body_encoded t)
body_encoded-Ended p none w (none, w1) e g =
    let (flushed, empty) = flush-Grew p w w1 g in (flushed.sound.failure, flushed, empty)
body_encoded-Ended p (some x) w (none, w1) e g = cc
body_encoded-Ended p none w (some y, w1) e g = cc
body_encoded-Ended p (some x) w (some y, w1) e g = (e, g)

header_encoded-Requested :
    (header body : Encoded) (w : Writer) (t : Option Error × Writer)
    → t.0 ≡ header.1
    → Grew header.0 w t.1
    → Requested header body w (header_encoded body t)
header_encoded-Requested (h, some x) (b, f) w (none, w1) e g = cc
header_encoded-Requested (h, some x) (b, f) w (some y, w1) e g = (e, g)
header_encoded-Requested (h, none) (b, f) w (some y, w1) e g = cc
header_encoded-Requested (h, none) (b, f) w (none, w1) e g =
    let (e', g') = encode-Grew (b, f) w1 g.sound in
    body_encoded-Ended (h ++ b) f w (encode (b, f) w1) e' (Grew-trans h b w w1 _ g g')

-- On a sound writer WriteRequest adds what the encoder wrote to the stream, and nothing else. With no
-- error it reports none and leaves nothing in the buffer; an error of the encoder is reported, and what
-- was written so far stays in the stream, without the body where the header failed.
pub write_request-Requested :
    (header body : Encoded) (w : Writer)
    → IsSound w
    → Requested header body w (write_request header body w)
unfolding write_request
write_request-Requested header body w ok =
    let (e, g) = encode-Grew header w ok in
    header_encoded-Requested header body w (encode header w) e g

-- A request whose body gob cannot encode, behind a header of the bytes `h` and a part `b` of the body,
-- leaves them to be sent with the next request that succeeds: they stand on the wire in front of it.
pub write_request_stale :
    (h b h' b' : Bytes) (e : Error) (w : Writer)
    → IsSound w
    → let (err, w1) = write_request (h, none) (b, some e) w in
      let (err', w2) = write_request (h', none) (b', none) w1 in
      (err ≡ some e)
      × (err' ≡ none)
      × (sent w2.link.out ≡ (stream w ++ (h ++ b)) ++ (h' ++ b'))
      × (w2.link.closed ≡ w.link.closed)
write_request_stale h b h' b' e w ok =
    let (failed, g) = write_request-Requested (h, none) (b, some e) w ok in
    let w1 = (write_request (h, none) (b, some e) w).1 in
    let (fine, g', empty) = write_request-Requested (h', none) (b', none) w1 g.sound in
    let w2 = (write_request (h', none) (b', none) w1).1 in
    (
      failed,
      fine,
      sym (append-nil (sent w2.link.out))
          ∙ ap (λ b. sent w2.link.out ++ b) (sym empty)
          ∙ g'.stream_lem
          ∙ ap (λ s. s ++ (h' ++ b')) g.stream_lem,
      g'.closed ∙ g.closed,
    )
