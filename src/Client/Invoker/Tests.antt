-- ===== src/Client/Invoker/Tests.antt =====
-- Runs of an invoker.
use myrpc.Client.Invoker.{send_end, Chan, Invoker, decoded, go, new_invoker, receive, terminate}
use myrpc.Base.{
  beq, if◌then◌else◌, ltb, ℕ, ◌+◌, ℕ_discrete, codes, List, [], ◌∷◌, none, some, ◌≡◌, refl, arith,
}
use myrpc.Common.ErrorTypes.{
  new_rpc_error, rpc_err_shutdown, error_type_client_read_response_header,
}
use myrpc.Common.Wire.{Response}
use myrpc.Client.Pending.{count, values, erase}
use myrpc.Client.Invoker.Runs.{run-completed_once}
use myrpc.Client.Invoker.Behaviour.{Answered, receive_lem, terminate-error, cause}
use myrpc.Client.Invoker.Steps.{Event, goes, sent, received, broken, ends, closes, run}

abbrev no_chans : ℕ → Chan
no_chans _ = record { capacity = 0; queue = [] }

abbrev fresh : Invoker
fresh = new_invoker no_chans 0

abbrev echo : Event
echo = goes (codes "/test/echo") (codes "hi") [] none

abbrev answer : ℕ → Response
answer seq = record { service_method = codes "/test/echo"; seq = seq; error = [] }

abbrev refusal : Response
refusal = record { service_method = codes "/test/echo"; seq = 0; error = 4 ∷ codes "no service" }

-- Two calls; the second is answered, and then the connection ends.
abbrev history : List Event
history =
    echo
    ∷ sent none
    ∷ echo
    ∷ sent none
    ∷ received (answer 1) (decoded (codes "ho"))
    ∷ broken (new_rpc_error error_type_client_read_response_header (codes "EOF"))
    ∷ ends
    ∷ []

history_completed : (run fresh history).completed ≡ 1 ∷ 0 ∷ []
unfolding run go send_end receive terminate beq
history_completed = refl

history_reply : ((run fresh history).calls 1).reply ≡ codes "ho"
unfolding run ℕ_discrete go send_end receive terminate beq
history_reply = refl

run-completed_once_example :
    let s = run (new_invoker no_chans 0) history in
    (if s.shutdown then 0 else count 0 (values s.pending)) + count 0 s.completed
    ≡ (if ltb 0 s.next_call then 1 else 0)
run-completed_once_example = run-completed_once no_chans 0 history 0 (omega arith)

abbrev one_waits : Invoker
one_waits = run fresh (echo ∷ sent none ∷ [])

receive_lem_example :
    Answered refusal.error (decoded []) 0 one_waits (receive refusal (decoded []) one_waits)
    × ((receive refusal (decoded []) one_waits).pending ≡ erase 0 one_waits.pending)
unfolding run go send_end
receive_lem_example = receive_lem one_waits refusal (decoded []) 0 refl

terminate-error_example :
    ((terminate rpc_err_shutdown none one_waits).calls 0).error
    ≡ some (cause one_waits.closing rpc_err_shutdown)
unfolding run go send_end
terminate-error_example = terminate-error one_waits rpc_err_shutdown none 0 (omega arith)

abbrev closed : Invoker
closed = run fresh (closes ∷ [])

abbrev one_refused : Invoker
one_refused = run closed (echo ∷ [])
