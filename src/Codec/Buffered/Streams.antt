-- ===== src/Codec/Buffered/Streams.antt =====
-- A buffered writer neither loses, doubles nor reorders a byte.
use myrpc.Base.{
  ℕ, ◌-◌, ◌≤◌, Bytes, List, [], ◌∷◌, ◌++◌, Option, none, some, leb, if◌then◌else◌, length, take,
  drop, ◌≡◌, refl, ap, ◌∙◌, sym, arith, Bool-cases, inl, inr, append_assoc, append-nil,
  take_append_drop, length-append, length-take, subst,
}
use myrpc.Common.Errors.{Error}
use myrpc.Codec.Wire.{Link}
use myrpc.Codec.Wire as Wire
use myrpc.Codec.Buffered.{Writer, write_past, write_rest, flushed, flush_bytes, flush, spill, write}

-- What was written to a connection, whose last write comes first.
abbrev pub sent : List Bytes → Bytes
sent [] = []
sent (b ∷ bs) = sent bs ++ b

-- All that was given to a writer, in order.
abbrev pub stream : Writer → Bytes
stream w = sent w.link.out ++ w.buffered

-- No error so far, and a connection that takes all that is written.
pub record IsSound (w : Writer) : Type 0 where
  pub takes : w.link.takes ≡ []
  pub failure : w.failure ≡ none
  pub fits : length w.buffered ≤ w.size

-- A writer that has got the bytes `p`, and whose connection was not closed.
pub record Grew (p : Bytes) (w w' : Writer) : Type 0 where
  pub sound : IsSound w'
  pub stream_lem : stream w' ≡ stream w ++ p
  pub closed : w'.link.closed ≡ w.link.closed

write_ready :
    (p : Bytes) (l : Link)
    → l.takes ≡ []
    → Wire.write p l ≡ (length p, none, record l { out = p ∷ l.out })
write_ready p l h = ap (λ takes. Wire.write_taking takes p l) h

write_past-Grew : (p : Bytes) (w : Writer) → IsSound w → w.buffered ≡ [] → Grew p w (write_past p w)
write_past-Grew p w h empty =
    subst (Grew p w)
      (sym (ap (λ t. record w { failure = t.1; link = t.2 }) (write_ready p w.link h.takes)))
      (record {
        sound = record { takes = h.takes; failure = refl; fits = h.fits };
        stream_lem = rw empty (
            append-nil (sent w.link.out ++ p)
            ∙ ap (λ s. s ++ p) (sym (append-nil (sent w.link.out))));
        closed = refl;
      })

write_rest-Grew : (p : Bytes) (w : Writer) → IsSound w → w.buffered ≡ [] → Grew p w (write_rest p w)
write_rest-Grew p w h empty = elim (Bool-cases (leb (length p) w.size)) [
  | inl fits ↦ rw fits (record {
    sound = record { takes = h.takes; failure = h.failure; fits = ground arith };
    stream_lem = rw (empty, append-nil) refl;
    closed = refl;
  })
  | inr large ↦ rw large (write_past-Grew p w h empty)
]

-- Flushing gives nothing new, and leaves nothing in the buffer.
abbrev pub Emptied : Writer → Writer → Type 0
Emptied w w' = Grew [] w w' × (w'.buffered ≡ [])

flush_bytes-Emptied :
    (bs : Bytes) (w : Writer) → IsSound w → w.buffered ≡ bs → Emptied w (flush_bytes bs w)
flush_bytes-Emptied [] w h e =
    (record { sound = h; stream_lem = sym (append-nil (stream w)); closed = refl }, e)
flush_bytes-Emptied (b ∷ bs) w h e =
    subst (λ t. Emptied w (flushed t w)) (sym (write_ready w.buffered w.link h.takes))
      (
        record {
          sound = record { takes = h.takes; failure = h.failure; fits = omega arith };
          stream_lem = refl;
          closed = refl;
        },
        refl,
      )

pub flush-Emptied : (w : Writer) → IsSound w → Emptied w (flush w)
unfolding flush
flush-Emptied w h =
    subst (λ o. Emptied w (elim o [ none ↦ flush_bytes w.buffered w | some e ↦ w ])) (sym h.failure)
      (flush_bytes-Emptied w.buffered w h refl)

pub Grew-trans : (p q : Bytes) (u v w : Writer) → Grew p u v → Grew q v w → Grew (p ++ q) u w
Grew-trans p q u v w f g = record {
  sound = g.sound;
  stream_lem = g.stream_lem ∙ ap (λ s. s ++ q) f.stream_lem ∙ append_assoc (stream u) p q;
  closed = g.closed ∙ f.closed;
}

-- Bytes for which there is place.
buffer-Grew :
    (p : Bytes) (w : Writer)
    → IsSound w
    → length p ≤ w.size - length w.buffered
    → Grew p w (record w { buffered = w.buffered ++ p })
buffer-Grew p w h fits = record {
  sound = record {
    takes = h.takes;
    failure = h.failure;
    fits = omega (arith, length-append w.buffered p, h.fits);
  };
  stream_lem = sym (append_assoc (sent w.link.out) w.buffered p);
  closed = refl;
}

spill-Grew :
    (bs p : Bytes) (w : Writer)
    → IsSound w
    → w.buffered ≡ bs
    → w.size - length w.buffered ≤ length p
    → Grew p w (spill bs p w)
spill-Grew [] p w h e long = write_past-Grew p w h e
spill-Grew (b ∷ bs) p w h e long =
    let k = w.size - length w.buffered in
    let full : Writer = record w { buffered = w.buffered ++ take k p } in
    let filled = buffer-Grew (take k p) w h (omega (arith, length-take k p long)) in
    let (emptied, empty) = flush-Emptied full filled.sound in
    let rest = write_rest-Grew (drop k p) (flush full) emptied.sound empty in
    subst
      (λ o. Grew p w (elim o [ none ↦ write_rest (drop k p) (flush full) | some e ↦ flush full ]))
      (sym emptied.sound.failure)
      (subst (λ q. Grew q w (write_rest (drop k p) (flush full))) (take_append_drop k p)
        (Grew-trans (take k p) (drop k p) w full _ filled
          (Grew-trans [] (drop k p) full (flush full) _ emptied rest)))

-- Whatever its length, a write to a sound writer adds its bytes behind all that it got before.
pub write-Grew : (p : Bytes) (w : Writer) → IsSound w → Grew p w (write p w)
unfolding write
write-Grew p w h =
    let place = leb (length p) (w.size - length w.buffered) in
    subst
      (λ o. Grew p w (elim o [
        | none ↦ (if place then record w { buffered = w.buffered ++ p } else spill w.buffered p w)
        | some e ↦ w
      ]))
      (sym h.failure)
      (elim (Bool-cases place) [
        | inl fits ↦ rw fits (buffer-Grew p w h (ground arith))
        | inr long ↦ rw long (spill-Grew w.buffered p w h refl (ground arith))
      ])

-- A writer never closes its connection.
either-closed :
    (o : Option Error) (u w : Writer) (n : ℕ)
    → u.link.closed ≡ n
    → w.link.closed ≡ n
    → let v : Writer = elim o [ none ↦ u | some e ↦ w ] in v.link.closed ≡ n
either-closed none u w n h k = h
either-closed (some e) u w n h k = k

write_taking-closed :
    (takes : List (ℕ × Option Error)) (p : Bytes) (l : Link)
    → (Wire.write_taking takes p l).2.closed ≡ l.closed
write_taking-closed [] p l = refl
write_taking-closed ((n, e) ∷ takes) p l = refl

write_rest-closed : (p : Bytes) (w : Writer) → (write_rest p w).link.closed ≡ w.link.closed
write_rest-closed p w = elim (Bool-cases (leb (length p) w.size)) [
  | inl fits ↦ rw fits refl
  | inr large ↦ rw large (write_taking-closed w.link.takes p w.link)
]

flushed-closed : (t : ℕ × Option Error × Link) (w : Writer) → (flushed t w).link.closed ≡ t.2.closed
flushed-closed (n, none, l) w = refl
flushed-closed (n, some e, l) w = refl

flush_bytes-closed : (bs : Bytes) (w : Writer) → (flush_bytes bs w).link.closed ≡ w.link.closed
flush_bytes-closed [] w = refl
flush_bytes-closed (b ∷ bs) w =
    flushed-closed (Wire.write w.buffered w.link) w
    ∙ write_taking-closed w.link.takes w.buffered w.link

pub flush-closed : (w : Writer) → (flush w).link.closed ≡ w.link.closed
unfolding flush
flush-closed w =
    either-closed w.failure (flush_bytes w.buffered w) w w.link.closed
      (flush_bytes-closed w.buffered w) refl

spill-closed : (bs p : Bytes) (w : Writer) → (spill bs p w).link.closed ≡ w.link.closed
spill-closed [] p w = write_taking-closed w.link.takes p w.link
spill-closed (b ∷ bs) p w =
    let k = w.size - length w.buffered in
    let w' = flush (record w { buffered = w.buffered ++ take k p }) in
    let kept = flush-closed (record w { buffered = w.buffered ++ take k p }) in
    either-closed w'.failure (write_rest (drop k p) w') w' w.link.closed
      (write_rest-closed (drop k p) w' ∙ kept) kept

pub write-closed : (p : Bytes) (w : Writer) → (write p w).link.closed ≡ w.link.closed
unfolding write
write-closed p w =
    let place = leb (length p) (w.size - length w.buffered) in
    either-closed w.failure
      (if place then record w { buffered = w.buffered ++ p } else spill w.buffered p w) w
      w.link.closed
      (elim (Bool-cases place) [
        | inl fits ↦ rw fits refl
        | inr long ↦ rw long (spill-closed w.buffered p w)
      ])
      refl
