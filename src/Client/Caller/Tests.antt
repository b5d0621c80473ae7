-- ===== src/Client/Caller/Tests.antt =====
-- Calls of a client over a DirectSelector.
use myrpc.Base.{
  ℕ, zero, suc, codes, List, [], ◌∷◌, Option, none, some, ◌≡◌, ◌↔◌, inl, refl, ◌≤◌, length, All,
  pos, pos_part,
}
use myrpc.Common.Errors.{Error, message}
use myrpc.Common.ErrorTypes.{
  RpcError, new_rpc_error, rpc_err_shutdown, error_type_client_write_request,
}
use myrpc.Client.Direct.{DirectSelector, direct, direct-IsSound}
use myrpc.Client.Caller.{
  failover, World, returned, Completed, broadcast_wait, forking_wait, init_max_try, call,
}
use myrpc.Client.Caller.Attempts.{Reported, call_tries}
use myrpc.Client.Caller.Everywhere.{Succeeded, AnySucceeded, broadcast_iff, forking_iff}

-- The first dial succeeds, and the second is refused.
abbrev dial : ℕ → Option Error
dial zero = none
dial (suc zero) = some (message (codes "connection refused"))
dial (suc (suc i)) = none

abbrev write_error : RpcError
write_error = new_rpc_error error_type_client_write_request (codes "broken pipe")

abbrev refuse_closed : List ℕ → Option RpcError
refuse_closed [] = some write_error
refuse_closed (_ ∷ _) = some rpc_err_shutdown

-- An invoker that fails to write while it is open, and refuses once it was closed.
abbrev broken_answer : ℕ → World DirectSelector → Option RpcError
broken_answer i w = refuse_closed w.selector.closed

abbrev no_completions : List ℕ → List (Option Completed)
no_completions _ = []

abbrev fresh_direct : DirectSelector
fresh_direct = record { invoker = none; dials = 0; closed = [] }

abbrev connected : DirectSelector
connected = record { invoker = some 0; dials = 1; closed = [] }

call_tries_example :
    let (w, o) =
      call
        (direct dial)
        broken_answer
        no_completions
        []
        failover
        (init_max_try (pos 0))
        fresh_direct in
    Reported w o × (length w.history ≤ pos_part (init_max_try (pos 0)))
call_tries_example =
    call_tries (direct dial) broken_answer no_completions [] failover (pos 0) fresh_direct
      (direct-IsSound dial) (inl refl)

abbrev two_done : List (Option Completed)
two_done =
    some (record { error = none; reply = codes "a" })
    ∷ some (record { error = some write_error; reply = [] })
    ∷ []

broadcast_iff_example :
    ((broadcast_wait (length two_done) two_done []).1 ≡ returned none) ↔ All Succeeded two_done
broadcast_iff_example = broadcast_iff two_done []

forking_iff_example :
    ((forking_wait (length two_done) two_done []).1 ≡ returned none) ↔ AnySucceeded two_done
forking_iff_example = forking_iff two_done [] (tt, (tt, tt))

broken_answer_closed :
    (w : World DirectSelector) (rest : List ℕ)
    → w.selector.closed ≡ 0 ∷ rest
    → broken_answer 0 w ≡ some rpc_err_shutdown
broken_answer_closed w rest e = rw e
