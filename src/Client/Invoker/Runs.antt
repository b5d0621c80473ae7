-- ===== src/Client/Invoker/Runs.antt =====
-- What holds after any run of an invoker.
use myrpc.Base.{
  if◌then◌else◌, ltb, ℕ, suc, ◌+◌, ◌^◌, ◌<◌, ◌≤◌, Bytes, List, [], ◌∷◌, Option, none, some, ◌≡◌,
  refl, arith, length,
}
use myrpc.Common.ErrorTypes.{RpcError}
use myrpc.Common.Wire.{Response}
use myrpc.Client.Pending.{lookup, values, count}
use myrpc.Client.Invoker.{
  Input, reading, failed, stopped, Invoker, Chan, new_invoker, BodyRead, decoded, undecoded, go,
  send_begin, send_end, close, receive, handle_response, call_done, fail_call,
}
use myrpc.Client.Invoker.Completion.{terminate-Ended}
use myrpc.Client.Invoker.Once.{Inv, step-Inv}
use myrpc.Client.Invoker.Steps.{
  Event, goes, sent, received, broken, ends, closes, step, run, step_go, step_sent, step_received,
  step_ends,
}

go-next_call :
    (s : Invoker) (m args reply : Bytes) (done : Option ℕ) (sending : Option ℕ)
    → (step_go sending (go m args reply done s) s).next_call ≤ suc s.next_call
unfolding go send_begin fail_call call_done
go-next_call s m args reply none none = ground arith
go-next_call s m args reply (some ch) none = ground arith
go-next_call s m args reply ch (some _) = omega arith

handle_response-next_call :
    (found : Option ℕ) (text : Bytes) (body : BodyRead) (s : Invoker)
    → (handle_response found text body s).next_call ≡ s.next_call
unfolding call_done
handle_response-next_call none text body s = refl
handle_response-next_call (some c) (b ∷ text) body s = refl
handle_response-next_call (some c) [] (decoded v) s = refl
handle_response-next_call (some c) [] (undecoded e) s = refl

received-next_call :
    (input : Input) (r : Response) (body : BodyRead) (s : Invoker)
    → (step_received input r body s).next_call ≡ s.next_call
unfolding receive
received-next_call reading r body s =
    handle_response-next_call (lookup r.seq s.pending) r.error body _
received-next_call (failed _ _) r body s = refl
received-next_call stopped r body s = refl

ends-next_call :
    (s : Invoker) (input : Input) (sending : Option ℕ)
    → s.sending ≡ sending
    → (step_ends input sending s).next_call ≡ s.next_call
ends-next_call s (failed e holder) none free = (terminate-Ended s e holder free).next_call
ends-next_call s (failed e holder) (some _) free = refl
ends-next_call s reading sending free = refl
ends-next_call s stopped sending free = refl

sent-next_call :
    (sending : Option ℕ) (e : Option RpcError) (s : Invoker)
    → (step_sent sending e s).next_call ≤ suc s.next_call
unfolding send_end fail_call call_done
sent-next_call none e s = omega arith
sent-next_call (some seq) none s = omega arith
sent-next_call (some seq) (some e) s = ground arith

step-next_call : (s : Invoker) (e : Event) → (step s e).next_call ≤ suc s.next_call
unfolding step
step-next_call s (goes m args reply done) = go-next_call s m args reply done s.sending
step-next_call s (sent e) = sent-next_call s.sending e s
step-next_call s (received r body) = omega (arith, received-next_call s.input r body s)
step-next_call s (broken e) = ground arith
step-next_call s ends = omega (arith, ends-next_call s s.input s.sending refl)
step-next_call s closes = unfold close in ground arith

run-Inv :
    (s : Invoker) (es : List Event) → Inv s → s.next_call + length es < 2 ^ 64 → Inv (run s es)
unfolding run
run-Inv s [] inv room = inv
run-Inv s (e ∷ es) inv room =
    run-Inv (step s e) es (step-Inv s inv e (omega arith)) (omega (arith, step-next_call s e))

new_invoker-Inv : (chans : ℕ → Chan) (n : ℕ) → Inv (new_invoker chans n)
new_invoker-Inv chans n = record {
  below = tt;
  counted = omega arith;
  quiet = λ e. cc;
  gone = λ e. cc;
  once = λ c. ground arith;
}

-- After any interleaving of fewer than 2^64 events: a call that was made stands exactly once among
-- the completed calls and those that wait for a response, taken together; a number not yet given out
-- stands there never. After the end of `input` no call waits, so each call that was made has been
-- completed exactly once.
pub run-completed_once :
    (chans : ℕ → Chan) (n : ℕ) (es : List Event) (c : ℕ)
    → length es < 2 ^ 64
    → let s = run (new_invoker chans n) es in
      (if s.shutdown then 0 else count c (values s.pending)) + count c s.completed
      ≡ (if ltb c s.next_call then 1 else 0)
run-completed_once chans n es c room =
    let inv = run-Inv (new_invoker chans n) es (new_invoker-Inv chans n) (omega arith) in
    ground (arith, inv.once c)
