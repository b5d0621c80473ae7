-- ===== src/Client/Caller/Everywhere.antt =====
-- Broadcast and Forking: what their result says of the completed calls.
use myrpc.Base.{
  ℕ, suc, Bytes, List, [], ◌∷◌, Option, none, some, ◌≡◌, ◌↔◌, refl, arith, ◌⊎◌, inl, inr, All,
  length,
}
use myrpc.Client.Caller.{returned, Completed, broadcast_wait, forking_wait}

-- A call that came back without an error.
abbrev pub Succeeded : Option Completed → Type 0
Succeeded none = ⊥
Succeeded (some c) = c.error ≡ none

-- A call that came back.
abbrev pub Came : Option Completed → Type 0
Came none = ⊥
Came (some _) = Unit

abbrev pub AnySucceeded : List (Option Completed) → Type 0
AnySucceeded [] = ⊥
AnySucceeded (c ∷ cs) = Succeeded c ⊎ AnySucceeded cs

broadcast_head :
    (l : ℕ) (c : Completed) (done : List (Option Completed)) (reply : Bytes)
    → ((broadcast_wait (suc l) (some c ∷ done) reply).1 ≡ returned none)
      ↔ ((c.error ≡ none) × ((broadcast_wait l done c.reply).1 ≡ returned none))
unfolding broadcast_wait
broadcast_head l c done reply = ground arith

-- When every invoker has completed, Broadcast returns nil exactly if every call succeeded.
pub broadcast_iff :
    (done : List (Option Completed)) (reply : Bytes)
    → ((broadcast_wait (length done) done reply).1 ≡ returned none) ↔ All Succeeded done
broadcast_iff [] reply = unfold broadcast_wait in ((λ _. tt), (λ _. refl))
broadcast_iff (none ∷ done) reply = unfold broadcast_wait in ((λ e. cc), (λ h. elim h.0 [ ]))
broadcast_iff (some c ∷ done) reply =
    let (to, from) = broadcast_head (length done) c done reply in
    let (ih_to, ih_from) = broadcast_iff done c.reply in
    ((λ e. ((to e).0, ih_to (to e).1)), (λ h. from (h.0, ih_from h.1)))

forking_head :
    (l : ℕ) (c : Completed) (done : List (Option Completed)) (reply : Bytes)
    → ((forking_wait (suc l) (some c ∷ done) reply).1 ≡ returned none)
      ↔ ((c.error ≡ none) ⊎ ((forking_wait l done reply).1 ≡ returned none))
unfolding forking_wait
forking_head l c done reply = ground arith

-- When every invoker has completed and no call was nil, Forking returns nil exactly if some call
-- succeeded.
pub forking_iff :
    (done : List (Option Completed)) (reply : Bytes)
    → All Came done
    → ((forking_wait (length done) done reply).1 ≡ returned none) ↔ AnySucceeded done
forking_iff [] reply came = unfold forking_wait in ((λ e. cc), (λ h. elim h [ ]))
forking_iff (none ∷ done) reply came = elim came.0 [ ]
forking_iff (some c ∷ done) reply came =
    let (to, from) = forking_head (length done) c done reply in
    let (ih_to, ih_from) = forking_iff done reply came.1 in
    (
      (λ e. elim (to e) [ inl good ↦ inl good | inr rest ↦ inr (ih_to rest) ]),
      (λ h. from (elim h [ inl good ↦ inl good | inr rest ↦ inr (ih_from rest) ])),
    )
