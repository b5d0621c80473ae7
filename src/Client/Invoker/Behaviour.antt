-- ===== src/Client/Invoker/Behaviour.antt =====
-- What one step of an invoker does to the calls: who gets which error, and which reply.
use myrpc.Base.{
  ℕ, ◌<◌, Bytes, List, [], ◌∷◌, ◌++◌, Option, none, some, Bool, true, ◌||◌, ◌≡◌, ◌≢◌, refl, arith,
  Bool-cases, inl, inr, if◌then◌else◌, beq,
}
use myrpc.Common.ErrorTypes.{RpcError, rpc_err_shutdown, new_rpc_error, type_of_byte}
use myrpc.Common.Wire.{Response}
use myrpc.Client.Pending.{lookup, erase, erase-none, values, count}
use myrpc.Client.Invoker.{
  failed, Invoker, BodyRead, decoded, undecoded, go, send_begin, receive, handle_response,
  call_done, fail_call, fail_all, terminate, parse_response_error, eof_text, unexpected_eof_text,
}

-- After Close, or after the end of `input`, Go refuses: the new call fails with the shutdown error
-- and is completed at once, and no request is registered.
pub go_refused :
    (s t : Invoker) (service_method args reply : Bytes) (done : Option ℕ)
    → (s.shutdown || s.closing) ≡ true
    → go service_method args reply done s ≡ some t
    → ((t.calls s.next_call).error ≡ some rpc_err_shutdown)
      × (t.completed ≡ s.completed ++ s.next_call ∷ [])
      × (t.pending ≡ s.pending)
      × (t.seq ≡ s.seq)
      × (t.sending ≡ s.sending)
unfolding go send_begin fail_call call_done
go_refused s t m args reply none down e = ground arith
go_refused s t m args reply (some ch) down e = ground arith

-- The call `c` is completed in `t`, and no other call has changed since `s`.
abbrev pub Finished : ℕ → Invoker → Invoker → Type 0
Finished c s t = ((d : ℕ) → d ≢ c → t.calls d ≡ s.calls d) × (t.completed ≡ s.completed ++ c ∷ [])

-- What a response with an error text and a body makes of the call `c` of `s`.
abbrev pub Answered : Bytes → BodyRead → ℕ → Invoker → Invoker → Type 0
Answered (b ∷ text) body c s t =
    ((t.calls c).error ≡ some (new_rpc_error (type_of_byte b) text))
    × ((t.calls c).reply ≡ (s.calls c).reply)
    × Finished c s t
Answered [] (decoded v) c s t =
    ((t.calls c).reply ≡ v)
    × ((t.calls c).error ≡ (s.calls c).error)
    × (t.input ≡ s.input)
    × Finished c s t
Answered [] (undecoded e) c s t =
    ((t.calls c).error ≡ some e) × (t.input ≡ failed e (some c)) × Finished c s t

handle_response-Answered :
    (error : Bytes) (body : BodyRead) (c : ℕ) (pending : List (ℕ × ℕ)) (s : Invoker)
    → Answered error body c s (handle_response (some c) error body (record s { pending = pending }))
unfolding call_done parse_response_error
handle_response-Answered (b ∷ text) body c pending s =
    (ground arith, ground arith, ((λ d h. ground arith), refl))
handle_response-Answered [] (decoded v) c pending s =
    (ground arith, ground arith, refl, ((λ d h. ground arith), refl))
handle_response-Answered [] (undecoded x) c pending s =
    (ground arith, refl, ((λ d h. ground arith), refl))

handle_response-pending :
    (error : Bytes) (body : BodyRead) (c : ℕ) (s : Invoker)
    → (handle_response (some c) error body s).pending ≡ s.pending
unfolding call_done
handle_response-pending (b ∷ text) body c s = refl
handle_response-pending [] (decoded v) c s = refl
handle_response-pending [] (undecoded e) c s = refl

-- A response finds its call by its sequence number alone. An error text that is not empty gives the
-- call the error that the text encodes and keeps its reply; with an empty one the call gets the
-- decoded reply, or the error of the decoding, which also ends the loop. The call leaves the map and
-- is completed; every other call is as it was.
pub receive_lem :
    (s : Invoker) (r : Response) (body : BodyRead) (c : ℕ)
    → lookup r.seq s.pending ≡ some c
    → Answered r.error body c s (receive r body s)
      × ((receive r body s).pending ≡ erase r.seq s.pending)
unfolding receive
receive_lem s r body c found = rw found (
  handle_response-Answered r.error body c (erase r.seq s.pending) s,
  handle_response-pending r.error body c (record s { pending = erase r.seq s.pending }),
)

-- A response whose number no pending call has changes no call and completes none.
pub receive_unknown :
    (s : Invoker) (r : Response) (body : BodyRead)
    → lookup r.seq s.pending ≡ none
    → ((receive r body s).calls ≡ s.calls)
      × ((receive r body s).completed ≡ s.completed)
      × ((receive r body s).pending ≡ s.pending)
unfolding receive
receive_unknown s r body missing = rw missing (refl, refl, erase-none r.seq s.pending missing)

-- The error that the end of `input` gives to the calls that still wait, for the error `e` that ended
-- the loop.
abbrev pub cause : Bool → RpcError → RpcError
cause closing e =
    if beq e.error eof_text
    then if closing then rpc_err_shutdown else record e { error = unexpected_eof_text }
    else e

fail_all-keeps :
    (cs : List ℕ) (e : RpcError) (s : Invoker) (a : ℕ)
    → (s.calls a).error ≡ some e
    → ((fail_all cs e s).calls a).error ≡ some e
unfolding fail_all fail_call call_done
fail_all-keeps [] e s a h = h
fail_all-keeps (c ∷ cs) e s a h = fail_all-keeps cs e (fail_call c e s) a (ground arith)

fail_all-error :
    (cs : List ℕ) (e : RpcError) (s : Invoker) (a : ℕ)
    → 0 < count a cs
    → ((fail_all cs e s).calls a).error ≡ some e
unfolding fail_all fail_call call_done
fail_all-error [] e s a h = absurd (omega arith)
fail_all-error (c ∷ cs) e s a h =
    ground (arith, fail_all-error cs e (fail_call c e s) a, fail_all-keeps cs e (fail_call c e s) a)

-- At the end of `input` every waiting call gets the error that ended it: after an EOF, the shutdown
-- error if Close was called and an unexpected EOF if not.
pub terminate-error :
    (s : Invoker) (e : RpcError) (holder : Option ℕ) (a : ℕ)
    → 0 < count a (values s.pending)
    → ((terminate e holder s).calls a).error ≡ some (cause s.closing e)
unfolding terminate
terminate-error s e holder a h = elim (Bool-cases (beq e.error eof_text)) [
  | inl eof ↦ elim (Bool-cases s.closing) [
    | inl asked ↦ simp (eof, asked) (fail_all-error (values s.pending) _ _ a h)
    | inr unasked ↦ simp (eof, unasked) (fail_all-error (values s.pending) _ _ a h)
  ]
  | inr other ↦ rw other (fail_all-error (values s.pending) _ _ a h)
]
