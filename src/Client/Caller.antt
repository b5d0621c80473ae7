-- ===== src/Client/Caller.antt =====
-- client/client.go: the modes of Call, and what they ask of a selector.
pub mod Attempts
pub mod Everywhere
pub mod Stale
mod Tests
use myrpc.Base.{
  ℕ, zero, suc, Bytes, List, [], ◌∷◌, Option, none, some, Bool, true, false, ◌||◌, if◌then◌else◌, ℤ,
  pos, is_positive, pos_part, int_eq,
}
use myrpc.Common.Errors.{Error, error_text}
use myrpc.Common.ErrorTypes.{
  RpcError, new_rpc_error, rpc_err_broad_cast, rpc_err_forking, error_type_client_shutdown,
  error_type_client_connect,
}
use myrpc.Client.Selector.{Selection, Selector}

pub data FailMode : Type 0 where
  failover failfast failtry broadcast forking : FailMode

-- `init` sets MaxTry.
abbrev pub init_max_try : ℤ → ℤ
init_max_try n = if is_positive n then n else pos 3

-- The state of a client's selector, with what one Call has done so far: the invokers that it called,
-- with their results, and those that it gave to HandleFailed, both newest first.
pub record World (S : Type 0) : Type 0 where
  pub selector : S
  pub history : List (ℕ × Option RpcError)
  pub handed : List ℕ

-- The result of Call: `panicked` where it would read the text of a nil error, `blocked` where it
-- would wait on the channel for ever.
pub data Outcome : Type 0 where
  returned : Option RpcError → Outcome
  panicked : Outcome
  blocked : Outcome

-- A round of a loop: another one follows, with the variables `invoker`, `err` and `rpcErr`, or none.
pub data Round (S : Type 0) : Type 0 where
  again : Option ℕ → Option Error → Option RpcError → World S → Round S
  stop : World S → Outcome → Round S

-- The rounds after one; `rest` runs them.
abbrev pub follow :
    {S : Type 0}
    → (Option ℕ → Option Error → Option RpcError → World S → World S × Outcome)
    → Round S
    → World S × Outcome
follow rest (again i err last w) = rest i err last w
follow rest (stop w o) = (w, o)

-- The error that ends the attempts: the connection was shut down, or the server gave it.
abbrev pub is_final : RpcError → Bool
is_final e = int_eq e.kind error_type_client_shutdown || is_positive e.kind

-- The end of Call: the error of the last Select, if there is one, or the last call's.
abbrev pub conclude : Option Error → Option RpcError → Outcome
conclude none rpc_err = returned rpc_err
conclude (some e) rpc_err = returned (some (new_rpc_error error_type_client_connect (error_text e)))

-- What `invoker.Go` and the channel give back for each of the invokers, in the order of completion;
-- `none` is a nil call.
pub record Completed : Type 0 where
  pub error : Option RpcError
  pub reply : Bytes

-- The loop of `invokerBroadCast`, which waits for `l` completions.
unfoldable pub broadcast_wait : ℕ → List (Option Completed) → Bytes → Bytes × Outcome
broadcast_wait zero done reply = (reply, returned none)
broadcast_wait (suc l) [] reply = (reply, blocked)
broadcast_wait (suc l) (none ∷ done) reply = (reply, returned (some rpc_err_broad_cast))
broadcast_wait (suc l) (some call ∷ done) reply =
    let rest = broadcast_wait l done call.reply in
    elim call.error [ none ↦ rest | some _ ↦ (reply, returned (some rpc_err_broad_cast)) ]

-- The loop of `invokerForking`.
unfoldable pub forking_wait : ℕ → List (Option Completed) → Bytes → Bytes × Outcome
forking_wait zero done reply = (reply, returned (some rpc_err_forking))
forking_wait (suc l) [] reply = (reply, blocked)
forking_wait (suc l) (none ∷ done) reply = (reply, returned (some rpc_err_forking))
forking_wait (suc l) (some call ∷ done) reply =
    let rest = forking_wait l done reply in
    elim call.error [ none ↦ (call.reply, returned none) | some _ ↦ rest ]

-- `answer i w` is what invoker `i` returns for the call when it is made in `w`.
module _ {S : Type 0} (sel : Selector S) (answer : ℕ → World S → Option RpcError) where
  abbrev pub selected : World S → World S
  selected w = record w { selector = (sel.select w.selector).0 }

  -- `client.selector.HandleFailed(invoker)` after the call of `i` gave `e`.
  abbrev pub failed : ℕ → RpcError → World S → World S
  failed i e w = record w {
    selector = sel.handle_failed i w.selector;
    history = (i, some e) ∷ w.history;
    handed = i ∷ w.handed;
  }

  -- Both loops, from `invoker.Call` to the end of the round.
  abbrev pub judge : ℕ → Option Error → Option RpcError → World S → Round S
  judge i err none w = stop (record w { history = (i, none) ∷ w.history }) (returned none)
  judge i err (some e) w =
      if is_final e
      then stop (failed i e w) (conclude err (some e))
      else again (some i) err (some e) (failed i e w)

  abbrev failover_selected : Option ℕ → Option Error → Option RpcError → World S → Round S
  failover_selected (some i) none last w = judge i none (answer i w) w
  failover_selected none none last w = stop w panicked
  failover_selected i (some e) last w = again i (some e) last w

  -- A round of the Failover loop: a new Select each time.
  unfoldable pub failover_round : Option RpcError → World S → Round S
  failover_round last w =
      let n = (sel.select w.selector).1 in failover_selected n.invoker n.err last (selected w)

  abbrev failtry_selected : Option ℕ → Option Error → Option RpcError → World S → Round S
  failtry_selected (some i) err last w = judge i err (answer i w) w
  failtry_selected none err last w = again none err last w

  -- A round of the Failtry loop: Select only while there is no invoker.
  unfoldable pub failtry_round : Option ℕ → Option Error → Option RpcError → World S → Round S
  failtry_round (some i) err last w = judge i err (answer i w) w
  failtry_round none err last w =
      let n = (sel.select w.selector).1 in failtry_selected n.invoker n.err last (selected w)

  unfoldable pub failover_loop : ℕ → Option Error → Option RpcError → World S → World S × Outcome
  failover_loop zero err last w = (w, conclude err last)
  failover_loop (suc tries) err last w =
      follow (λ _ err' last' w'. failover_loop tries err' last' w') (failover_round last w)

  unfoldable pub failtry_loop :
      ℕ → Option ℕ → Option Error → Option RpcError → World S → World S × Outcome
  failtry_loop zero i err last w = (w, conclude err last)
  failtry_loop (suc tries) i err last w =
      follow (λ i' err' last' w'. failtry_loop tries i' err' last' w') (failtry_round i err last w)

  abbrev no_invokers : List ℕ → Bool
  no_invokers [] = true
  no_invokers (_ ∷ _) = false

  abbrev count_invokers : List ℕ → ℕ
  count_invokers [] = zero
  count_invokers (_ ∷ is) = suc (count_invokers is)

  -- `Call` on a client with `max_try` after `init`. `completions is` is what the channel gives when
  -- the call is sent to each invoker of `is`; `reply` is what `reply` held before.
  unfoldable pub call :
      (List ℕ → List (Option Completed)) → Bytes → FailMode → ℤ → S → World S × Outcome
  unfolding failover_loop failtry_loop broadcast_wait forking_wait
  call completions reply mode max_try s =
      let w : World S = record { selector = s; history = []; handed = [] } in
      let is = sel.list s in
      let l = count_invokers is in
      elim mode [
        | failover ↦ failover_loop (pos_part max_try) none none w
        | failfast ↦ (w, conclude none none)
        | failtry ↦ failtry_loop (pos_part max_try) none none none w
        | broadcast ↦ (
          w,
          if no_invokers is then returned none else (broadcast_wait l (completions is) reply).1,
        )
        | forking ↦
            (w, if no_invokers is then returned none else (forking_wait l (completions is) reply).1)
      ]
