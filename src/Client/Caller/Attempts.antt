-- ===== src/Client/Caller/Attempts.antt =====
-- What the result of Failover and Failtry says of the calls that were made.
use myrpc.Base.{
  ℕ, zero, suc, ◌+◌, ◌≤◌, Bytes, List, ◌∷◌, Option, none, some, false, ◌≡◌, refl, arith, ap, ◌⊎◌,
  inl, inr, All, length, map, ℤ, pos, negsuc, Bool-cases, pos_part,
}
use myrpc.Common.Errors.{Error}
use myrpc.Common.ErrorTypes.{RpcError, error_type_client_connect}
use myrpc.Client.Selector.{Selector, IsChosen, IsSound}
use myrpc.Client.Caller.{
  World, Outcome, returned, panicked, blocked, Round, again, stop, is_final, conclude, judge,
  follow, selected, call, FailMode, failover, failtry, failfast, broadcast, forking, Completed,
  init_max_try, failover_selected, failtry_selected, failover_round, failtry_round, failover_loop,
  failtry_loop,
}

-- A call that the loop goes on after: it failed, and its error does not end the attempts.
abbrev pub Retried : ℕ × Option RpcError → Type 0
Retried (_, none) = ⊥
Retried (_, some e) = is_final e ≡ false

abbrev pub callers : List (ℕ × Option RpcError) → List ℕ
callers = map (λ c. c.0)

-- The loop keeps an invoker only while there is no error of a Select.
abbrev Kept : Option ℕ → Option Error → Type 0
Kept (some _) (some _) = ⊥
Kept _ _ = Unit

module _ {S : Type 0} where
  -- All calls so far were retried, and their invokers were given to HandleFailed.
  abbrev pub Retrying : World S → Type 0
  Retrying w = All Retried w.history × (w.handed ≡ callers w.history)

  -- What a result says. Success: the last call succeeded and all before it were retried. An error:
  -- that of the last call, or the connect error of a Select, without a final error of any call.
  abbrev pub Reported : World S → Outcome → Type 0
  Reported w (returned none) =
      (i : ℕ) × (h : List (ℕ × Option RpcError)) × (w.history ≡ (i, none) ∷ h)
      × All Retried h
      × (w.handed ≡ callers h)
  Reported w (returned (some e)) =
      ((i : ℕ) × (h : List (ℕ × Option RpcError)) × (w.history ≡ (i, some e) ∷ h)
        × All Retried h
        × (w.handed ≡ callers w.history))
      ⊎ (Retrying w × (e.kind ≡ error_type_client_connect))
  Reported w panicked = ⊥
  Reported w blocked = ⊥

  -- The state of a loop after a round: the last call's error is kept in `last`, unless Select failed.
  abbrev Going : Option Error → Option RpcError → World S → Type 0
  Going (some _) last w = Retrying w
  Going none none w = ⊥
  Going none (some e) w =
      (i : ℕ) × (h : List (ℕ × Option RpcError)) × (w.history ≡ (i, some e) ∷ h) × Retrying w

  abbrev RoundOk : ℕ → Round S → Type 0
  RoundOk n (again i err last w) = Going err last w × Kept i err × (length w.history ≤ suc n)
  RoundOk n (stop w o) = Reported w o × (length w.history ≤ suc n)

  -- What a whole run says, from a state with `n` calls and with `tries` rounds to go.
  abbrev Ran : ℕ → ℕ → World S × Outcome → Type 0
  Ran n tries (w, o) = Reported w o × (length w.history ≤ n + tries)

  follow-Ran :
      (n tries : ℕ) (rest : Option ℕ → Option Error → Option RpcError → World S → World S × Outcome)
      → ((i : Option ℕ) (err : Option Error) (last : Option RpcError) (w : World S)
          → Going err last w
          → Kept i err
          → Ran (length w.history) tries (rest i err last w))
      → (r : Round S) → RoundOk n r
      → Ran n (suc tries) (follow rest r)
  follow-Ran n tries rest ih (again i err last w) (g, k, b) =
      let (report, bound) = ih i err last w g k in (report, omega arith)
  follow-Ran n tries rest ih (stop w o) (report, b) = (report, omega arith)

  Going-Retrying :
      (err : Option Error) (last : Option RpcError) (w : World S) → Going err last w → Retrying w
  Going-Retrying (some e) last w h = h
  Going-Retrying none none w h = elim h [ ]
  Going-Retrying none (some e) w h = h.3

  Going-Reported :
      (err : Option Error) (last : Option RpcError) (w : World S)
      → Going err last w
      → Reported w (conclude err last)
  Going-Reported (some e) last w h = inr (h, refl)
  Going-Reported none none w h = elim h [ ]
  Going-Reported none (some e) w (i, h, eq, (all, handed)) = inl (i, h, eq, ground arith, handed)

module _ {S : Type 0} (sel : Selector S) (answer : ℕ → World S → Option RpcError) where
  judge-RoundOk :
      (i : ℕ) (r : Option RpcError) (w : World S)
      → Retrying w
      → RoundOk (length w.history) (judge sel answer i none r w)
  judge-RoundOk i none w h = ((i, w.history, refl, h.0, h.1), omega arith)
  judge-RoundOk i (some e) w h = elim (Bool-cases (is_final e)) [
    | inl final ↦ rw final (inl (i, w.history, refl, h.0, ap (◌∷◌ i) h.1), omega arith)
    | inr retry ↦ rw retry ((i, w.history, refl, ((retry, h.0), ap (◌∷◌ i) h.1)), tt, omega arith)
  ]

  module _ (sound : IsSound sel) where
    failover_selected-RoundOk :
        (i : Option ℕ) (err : Option Error) (last : Option RpcError) (w : World S)
        → IsChosen i err
        → Retrying w
        → RoundOk (length w.history) (failover_selected sel answer i err last w)
    failover_selected-RoundOk none none last w c h = elim c [ ]
    failover_selected-RoundOk none (some e) last w c h = (h, tt, omega arith)
    failover_selected-RoundOk (some i) none last w c h = judge-RoundOk i (answer i w) w h
    failover_selected-RoundOk (some i) (some e) last w c h = elim c [ ]

    failtry_selected-RoundOk :
        (i : Option ℕ) (err : Option Error) (last : Option RpcError) (w : World S)
        → IsChosen i err
        → Retrying w
        → RoundOk (length w.history) (failtry_selected sel answer i err last w)
    failtry_selected-RoundOk none none last w c h = elim c [ ]
    failtry_selected-RoundOk none (some e) last w c h = (h, tt, omega arith)
    failtry_selected-RoundOk (some i) none last w c h = judge-RoundOk i (answer i w) w h
    failtry_selected-RoundOk (some i) (some e) last w c h = elim c [ ]

    failtry_round-RoundOk :
        (i : Option ℕ) (err : Option Error) (last : Option RpcError) (w : World S)
        → Kept i err
        → Retrying w
        → RoundOk (length w.history) (failtry_round sel answer i err last w)
    unfolding failtry_round
    failtry_round-RoundOk none err last w k h =
        failtry_selected-RoundOk _ _ last (selected sel answer w) (sound w.selector) h
    failtry_round-RoundOk (some i) none last w k h = judge-RoundOk i (answer i w) w h
    failtry_round-RoundOk (some i) (some e) last w k h = elim k [ ]

    failover_round-RoundOk :
        (last : Option RpcError) (w : World S)
        → Retrying w
        → RoundOk (length w.history) (failover_round sel answer last w)
    unfolding failover_round
    failover_round-RoundOk last w h =
        failover_selected-RoundOk _ _ last (selected sel answer w) (sound w.selector) h

    failover_loop-Ran :
        (tries : ℕ) (err : Option Error) (last : Option RpcError) (w : World S)
        → Going err last w
        → Ran (length w.history) tries (failover_loop sel answer tries err last w)
    unfolding failover_loop
    failover_loop-Ran zero err last w g = (Going-Reported err last w g, omega arith)
    failover_loop-Ran (suc tries) err last w g =
        follow-Ran (length w.history) tries _
          (λ i err' last' w' g' k. failover_loop-Ran tries err' last' w' g')
          (failover_round sel answer last w)
          (failover_round-RoundOk last w (Going-Retrying err last w g))

    failtry_loop-Ran :
        (tries : ℕ) (i : Option ℕ) (err : Option Error) (last : Option RpcError) (w : World S)
        → Going err last w
        → Kept i err
        → Ran (length w.history) tries (failtry_loop sel answer tries i err last w)
    unfolding failtry_loop
    failtry_loop-Ran zero i err last w g k = (Going-Reported err last w g, omega arith)
    failtry_loop-Ran (suc tries) i err last w g k =
        follow-Ran (length w.history) tries _
          (λ i' err' last' w' g' k'. failtry_loop-Ran tries i' err' last' w' g' k')
          (failtry_round sel answer i err last w)
          (failtry_round-RoundOk i err last w k (Going-Retrying err last w g))

    -- The first round needs no more than that nothing was done yet.
    failover_loop-Ran_first :
        (tries : ℕ) (w : World S)
        → Retrying w
        → Ran (length w.history) (suc tries) (failover_loop sel answer (suc tries) none none w)
    unfolding failover_loop
    failover_loop-Ran_first tries w h =
        follow-Ran (length w.history) tries _
          (λ i err last w' g k. failover_loop-Ran tries err last w' g)
          (failover_round sel answer none w) (failover_round-RoundOk none w h)

    failtry_loop-Ran_first :
        (tries : ℕ) (w : World S)
        → Retrying w
        → Ran (length w.history) (suc tries) (failtry_loop sel answer (suc tries) none none none w)
    unfolding failtry_loop
    failtry_loop-Ran_first tries w h =
        follow-Ran (length w.history) tries _
          (λ i err last w' g k. failtry_loop-Ran tries i err last w' g k)
          (failtry_round sel answer none none none w) (failtry_round-RoundOk none none none w tt h)

init_max_try-pos : (z : ℤ) → (n : ℕ) × (init_max_try z ≡ pos (suc n))
init_max_try-pos (pos zero) = (2, refl)
init_max_try-pos (pos (suc n)) = (n, ground arith)
init_max_try-pos (negsuc n) = (2, refl)

module _ {S : Type 0} (sel : Selector S) (answer : ℕ → World S → Option RpcError)
    (sound : IsSound sel) where
  -- A call with `n + 1` tries.
  call-Ran :
      (completions : List ℕ → List (Option Completed)) (reply : Bytes) (mode : FailMode) (n : ℕ)
      (s : S)
      → (mode ≡ failover) ⊎ (mode ≡ failtry)
      → Ran 0 (suc n) (call sel answer completions reply mode (pos (suc n)) s)
  unfolding call
  call-Ran completions reply failover n s e =
      failover_loop-Ran_first sel answer sound n _ (tt, refl)
  call-Ran completions reply failtry n s e = failtry_loop-Ran_first sel answer sound n _ (tt, refl)
  call-Ran completions reply failfast n s e = elim e [ inl p ↦ cc | inr p ↦ cc ]
  call-Ran completions reply broadcast n s e = elim e [ inl p ↦ cc | inr p ↦ cc ]
  call-Ran completions reply forking n s e = elim e [ inl p ↦ cc | inr p ↦ cc ]

-- Failover and Failtry, for a selector that gives an invoker or an error and never both: Call
-- makes at most MaxTry calls, as `init` sets it, and neither panics nor blocks. If it returns nil,
-- the last call returned nil, and all before it had failed with an error that allows another try
-- and were given to HandleFailed. If it returns an error, that is the error of the last call,
-- where all before it allowed another try, or a connect error, where each call allowed another
-- try; each call made was given to HandleFailed.
pub call_tries :
    {S : Type 0} (sel : Selector S) (answer : ℕ → World S → Option RpcError)
    (completions : List ℕ → List (Option Completed)) (reply : Bytes) (mode : FailMode) (max_try : ℤ)
    (s : S)
    → IsSound sel
    → (mode ≡ failover) ⊎ (mode ≡ failtry)
    → let (w, o) = call sel answer completions reply mode (init_max_try max_try) s in
      Reported w o × (length w.history ≤ pos_part (init_max_try max_try))
call_tries sel answer completions reply mode max_try s sound either =
    let (n, e) = init_max_try-pos max_try in
    rw e (
      let (report, bound) = call-Ran sel answer sound completions reply mode n s either in
      (report, omega arith))
