-- ===== src/Client/Invoker/Once.antt =====
-- The invariant of an invoker, over the steps of its goroutines.
use myrpc.Base.{
  ℕ, suc, ◌+◌, ◌%◌, ◌^◌, ◌<◌, ◌≤◌, Bytes, List, [], ◌∷◌, Option, none, some, true, false, ◌||◌,
  ◌==◌, ltb, if◌then◌else◌, ◌≡◌, refl, arith, Bool-cases, Option-cases, inl, inr, ◌∙◌, sym, subst,
}
use mathlib.Core.Option.{some-injective}
use myrpc.Common.ErrorTypes.{RpcError}
use myrpc.Common.Wire.{Response}
use myrpc.Client.Pending.{
  lookup, values, count, count-append, Below, lookup-Below, Below-erase, Below-insert, count-insert,
  count-erase, erase-none,
}
use myrpc.Client.Invoker.{
  Input, reading, failed, stopped, Invoker, BodyRead, go, send_begin, send_end, close, receive,
  call_done, fail_call, new_call, make_chan,
}
use myrpc.Client.Invoker.Completion.{Settled, Ended, terminate-Ended, handle_response-Settled}
use myrpc.Client.Invoker.Steps.{
  Event, goes, sent, received, broken, ends, closes, step, step_go, step_sent, step_received,
  step_broken, step_ends,
}

-- The calls that wait for a response. After the end of `input` the map is not read again.
abbrev pub waiting : Invoker → List ℕ
waiting s = if s.shutdown then [] else values s.pending

-- One for a call that was made, none for a number not yet given out.
abbrev pub made : Invoker → ℕ → ℕ
made s c = if ltb c s.next_call then 1 else 0

pub record Inv (s : Invoker) : Type 0 where
  pub below : Below s.seq s.pending
  pub counted : s.seq ≤ s.next_call
  pub quiet : s.shutdown ≡ true → s.sending ≡ none
  pub gone : s.shutdown ≡ true → s.input ≡ stopped
  pub once : (c : ℕ) → count c (waiting s) + count c s.completed ≡ made s c

module _ (s : Invoker) (inv : Inv s) where
  open inv use {below, counted, quiet, gone, once}

  Settled-Inv :
      (k c : ℕ) (t : Invoker)
      → s.shutdown ≡ false
      → lookup k s.pending ≡ some c
      → Settled k c s t
      → Inv t
  Settled-Inv k c t up found h = record {
    below = rw (h.seq, h.pending) (Below-erase s.seq k s.pending below);
    counted = omega arith;
    quiet = λ e. cc;
    gone = λ e. cc;
    once = λ a. ground (
      arith,
      once a,
      h.up,
      h.pending,
      h.completed,
      h.next_call,
      count-erase a k c s.pending found,
      count-append a s.completed (c ∷ []),
    );
  }

  Ended-Inv : (t : Invoker) → s.shutdown ≡ false → Ended s t → Inv t
  Ended-Inv t up h = record {
    below = rw (h.seq, h.pending) below;
    counted = omega arith;
    quiet = λ _. h.sending;
    gone = λ _. h.input;
    once = λ a. ground (arith, once a, h.completed a);
  }

  send_end-Inv : (seq : ℕ) (e : Option RpcError) → s.sending ≡ some seq → Inv (send_end seq e s)
  unfolding send_end fail_call call_done
  send_end-Inv seq none busy = record {
    below = below;
    counted = counted;
    quiet = λ _. refl;
    gone = gone;
    once = once;
  }
  send_end-Inv seq (some e) busy = elim (Option-cases (lookup seq s.pending)) [
    | inl missing ↦
        rw (missing, erase-none seq s.pending missing)
          (record { below = below; counted = counted; quiet = λ _. refl; gone = gone; once = once })
    | inr (c, found) ↦ rw found (Settled-Inv seq c _ (ground arith) found (ground arith))
  ]

  receive-Inv : (r : Response) (body : BodyRead) → s.input ≡ reading → Inv (receive r body s)
  unfolding receive call_done
  receive-Inv r body busy =
      let up : s.shutdown ≡ false = ground arith in
      elim (Option-cases (lookup r.seq s.pending)) [
        | inl missing ↦
            rw (missing, erase-none r.seq s.pending missing)
              (record {
                below = below;
                counted = counted;
                quiet = quiet;
                gone = λ e. ground arith;
                once = once;
              })
        | inr (c, found) ↦
            rw found
              (Settled-Inv r.seq c _ up found (handle_response-Settled s r.seq c r.error body up))
      ]

  send_begin-Inv :
      (c : ℕ) (t : Invoker)
      → c ≡ s.next_call
      → c + 1 < 2 ^ 64
      → t.seq ≡ s.seq
      → t.pending ≡ s.pending
      → t.shutdown ≡ s.shutdown
      → t.sending ≡ none
      → t.input ≡ s.input
      → t.next_call ≡ suc c
      → t.completed ≡ s.completed
      → Inv (send_begin c t)
  unfolding send_begin fail_call call_done
  send_begin-Inv c t fresh room seq pending shutdown free input next completed =
      elim (Bool-cases (t.shutdown || t.closing)) [
        | inl down ↦ rw down (record {
          below = rw (seq, pending) below;
          counted = omega arith;
          quiet = λ _. free;
          gone = λ e. input ∙ gone (sym shutdown ∙ e);
          once = λ a. ground (arith, once a, count-append a t.completed (c ∷ []));
        })
        | inr up ↦
            let next_seq : (s.seq + 1) % 2 ^ 64 ≡ suc s.seq = omega arith in
            rw up (record {
              below = rw (seq, pending, next_seq) (Below-insert s.seq c s.pending below);
              counted = rw (seq, next_seq, next) (omega arith);
              quiet = λ e. ground arith;
              gone = λ e. input ∙ gone (sym shutdown ∙ e);
              once = λ a. ground (
                arith,
                once a,
                lookup-Below s.seq s.pending below,
                count-insert a s.seq c s.pending,
              );
            })
      ]

  go-Inv :
      (service_method args reply : Bytes) (done : Option ℕ) (t : Invoker)
      → s.sending ≡ none
      → s.next_call + 1 < 2 ^ 64
      → go service_method args reply done s ≡ some t
      → Inv t
  unfolding go
  go-Inv m args reply none t free room e = subst Inv (some-injective _ _ e) (
      send_begin-Inv s.next_call (new_call m args reply s.next_chan (make_chan 10 s)) refl room refl
        refl refl free refl refl refl)
  go-Inv m args reply (some ch) t free room e = elim (Bool-cases ((s.chans ch).capacity == 0)) [
    | inl unbuffered ↦ cc (rw unbuffered at e)
    | inr buffered ↦ subst Inv (some-injective _ _ (rw buffered at e)) (
        send_begin-Inv s.next_call (new_call m args reply ch s) refl room refl refl refl free refl
          refl refl)
  ]

  step_go-Inv :
      (sending : Option ℕ) (r : Option Invoker)
      → s.sending ≡ sending
      → ((t : Invoker) → s.sending ≡ none → r ≡ some t → Inv t)
      → Inv (step_go sending r s)
  step_go-Inv none none e h = inv
  step_go-Inv none (some t) e h = h t e refl
  step_go-Inv (some _) r e h = inv

  step_sent-Inv :
      (sending : Option ℕ) (e : Option RpcError) → s.sending ≡ sending → Inv (step_sent sending e s)
  step_sent-Inv none e busy = inv
  step_sent-Inv (some seq) e busy = send_end-Inv seq e busy

  step_received-Inv :
      (input : Input) (r : Response) (body : BodyRead)
      → s.input ≡ input
      → Inv (step_received input r body s)
  step_received-Inv reading r body e = receive-Inv r body e
  step_received-Inv (failed _ _) r body e = inv
  step_received-Inv stopped r body e = inv

  step_broken-Inv : (input : Input) (e : RpcError) → s.input ≡ input → Inv (step_broken input e s)
  step_broken-Inv reading e at_work = record {
    below = below;
    counted = counted;
    quiet = quiet;
    gone = λ down. ground (arith, gone down);
    once = once;
  }
  step_broken-Inv (failed _ _) e at_work = inv
  step_broken-Inv stopped e at_work = inv

  step_ends-Inv :
      (input : Input) (sending : Option ℕ)
      → s.input ≡ input
      → s.sending ≡ sending
      → Inv (step_ends input sending s)
  step_ends-Inv (failed e holder) none broke free =
      Ended-Inv _ (ground arith) (terminate-Ended s e holder free)
  step_ends-Inv (failed e holder) (some _) broke free = inv
  step_ends-Inv reading sending broke free = inv
  step_ends-Inv stopped sending broke free = inv

  close-Inv : Inv (close none s).0
  unfolding close
  close-Inv = elim (Bool-cases s.closing) [
    | inl again ↦ simp again inv
    | inr first ↦
        simp first
          (record { below = below; counted = counted; quiet = quiet; gone = gone; once = once })
  ]

  -- Every event keeps the invariant, while fewer than 2^64 calls have been made.
  pub step-Inv : (e : Event) → s.next_call + 1 < 2 ^ 64 → Inv (step s e)
  unfolding step
  step-Inv (goes m args reply done) room =
      step_go-Inv s.sending (go m args reply done s) refl
        (λ t free e. go-Inv m args reply done t free room e)
  step-Inv (sent e) room = step_sent-Inv s.sending e refl
  step-Inv (received r body) room = step_received-Inv s.input r body refl
  step-Inv (broken e) room = step_broken-Inv s.input e refl
  step-Inv ends room = step_ends-Inv s.input s.sending refl refl
  step-Inv closes room = close-Inv
