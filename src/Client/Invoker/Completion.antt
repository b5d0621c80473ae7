-- ===== src/Client/Invoker/Completion.antt =====
-- What the end of `input` and a response do to the calls: the frame of the proofs beside this file.
use myrpc.Base.{
  ℕ, ◌+◌, Bytes, List, [], ◌∷◌, ◌++◌, Option, none, some, true, false, ◌≡◌, arith, Bool-cases, inl,
  inr, beq, ◌∙◌,
}
use myrpc.Common.ErrorTypes.{RpcError, rpc_err_shutdown}
use myrpc.Client.Pending.{erase, values, count, count-append}
use myrpc.Client.Invoker.{
  stopped, Invoker, BodyRead, decoded, undecoded, terminate, call_done, fail_call, fail_all,
  handle_response, eof_text, set_error_of,
}

-- A call that fails is completed, and nothing else that the invariant reads changes.
fail_all-completed :
    (cs : List ℕ) (e : RpcError) (s : Invoker) (a : ℕ)
    → count a (fail_all cs e s).completed ≡ count a s.completed + count a cs
unfolding fail_all fail_call call_done
fail_all-completed [] e s a = omega arith
fail_all-completed (c ∷ cs) e s a =
    ground (arith, fail_all-completed cs e (fail_call c e s) a, count-append a s.completed (c ∷ []))

pub record Same (s t : Invoker) : Type 0 where
  pub seq : t.seq ≡ s.seq
  pub pending : t.pending ≡ s.pending
  pub shutdown : t.shutdown ≡ s.shutdown
  pub sending : t.sending ≡ s.sending
  pub input : t.input ≡ s.input
  pub next_call : t.next_call ≡ s.next_call

fail_all-Same : (cs : List ℕ) (e : RpcError) (s : Invoker) → Same s (fail_all cs e s)
unfolding fail_all fail_call call_done
fail_all-Same [] e s = ground arith
fail_all-Same (c ∷ cs) e s = ground (arith, fail_all-Same cs e (fail_call c e s))

-- `t` is `s` with one call taken out of the map by its number and completed.
pub record Settled (k c : ℕ) (s t : Invoker) : Type 0 where
  pub seq : t.seq ≡ s.seq
  pub next_call : t.next_call ≡ s.next_call
  pub up : t.shutdown ≡ false
  pub pending : t.pending ≡ erase k s.pending
  pub completed : t.completed ≡ s.completed ++ c ∷ []

-- `t` is `s` with every call of the map completed.
pub record Ended (s t : Invoker) : Type 0 where
  pub seq : t.seq ≡ s.seq
  pub next_call : t.next_call ≡ s.next_call
  pub down : t.shutdown ≡ true
  pub pending : t.pending ≡ s.pending
  pub completed : (a : ℕ) → count a t.completed ≡ count a s.completed + count a (values s.pending)
  pub sending : t.sending ≡ none
  pub input : t.input ≡ stopped

-- `t` is `s` after the first assignments of the end of `input`.
pub record Stopping (s t : Invoker) : Type 0 where
  pub seq : t.seq ≡ s.seq
  pub next_call : t.next_call ≡ s.next_call
  pub down : t.shutdown ≡ true
  pub pending : t.pending ≡ s.pending
  pub completed : t.completed ≡ s.completed
  pub sending : t.sending ≡ none
  pub input : t.input ≡ stopped

pub fail_all-Ended :
    (s t : Invoker) (e : RpcError) → Stopping s t → Ended s (fail_all (values s.pending) e t)
fail_all-Ended s t e h =
    let same = fail_all-Same (values s.pending) e t in
    record {
      seq = same.seq ∙ h.seq;
      next_call = same.next_call ∙ h.next_call;
      down = same.shutdown ∙ h.down;
      pending = same.pending ∙ h.pending;
      completed = λ a. rw (← h.completed) (fail_all-completed (values s.pending) e t a);
      sending = same.sending ∙ h.sending;
      input = same.input ∙ h.input;
    }

set_error_of-Stopping :
    (s : Invoker) (holder : Option ℕ) (e : RpcError) (t : Invoker)
    → Stopping s t
    → Stopping s (set_error_of holder e t)
set_error_of-Stopping s none e t h = h
set_error_of-Stopping s (some c) e t h = ground arith

pub terminate-Ended :
    (s : Invoker) (e : RpcError) (holder : Option ℕ)
    → s.sending ≡ none
    → Ended s (terminate e holder s)
unfolding terminate
terminate-Ended s e holder free = elim (Bool-cases (beq e.error eof_text)) [
  | inl eof ↦ elim (Bool-cases s.closing) [
    | inl asked ↦ simp (eof, asked) (fail_all-Ended s _ rpc_err_shutdown (ground arith))
    | inr unasked ↦
        simp (eof, unasked)
          (fail_all-Ended s _ _ (set_error_of-Stopping s holder _ _ (ground arith)))
  ]
  | inr other ↦ rw other (fail_all-Ended s _ e (ground arith))
]

pub handle_response-Settled :
    (s : Invoker) (k c : ℕ) (text : Bytes) (body : BodyRead)
    → s.shutdown ≡ false
    → Settled k c s (handle_response (some c) text body (record s { pending = erase k s.pending }))
unfolding call_done
handle_response-Settled s k c (b ∷ text) body up = ground arith
handle_response-Settled s k c [] (decoded v) up = ground arith
handle_response-Settled s k c [] (undecoded e) up = ground arith
