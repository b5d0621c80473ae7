-- ===== src/Client/Closing/Reopened.antt =====
-- A client over a DirectSelector, closed and used again.
use myrpc.Base.{ℕ, Bytes, List, [], ◌∷◌, Option, none, some, ◌≡◌, refl}
use myrpc.Common.Errors.{Error}
use myrpc.Client.Invoker.{Chan}
use myrpc.Client.Direct.{DirectSelector, direct, list, select, handle_failed}
use myrpc.Client.Closing.{handed, go, close}

-- Close over a DirectSelector closes its invoker twice, by HandleFailed and by itself, and leaves the
-- selector without one. The client is not closed thereby: where the next dial succeeds, a later Go hands
-- its call to a new invoker.
pub close_reopens :
    (dial : ℕ → Option Error) (i dials : ℕ) (closed : List ℕ) (service_method args reply : Bytes)
    (channel : Option Chan)
    → dial dials ≡ none
    → let s : DirectSelector = record { invoker = some i; dials = dials; closed = closed } in
      let (s1, twice) = close (direct dial) s in
      let (s2, g) = go (direct dial) service_method args reply channel s1 in
      (twice ≡ i ∷ [])
      × (s1.closed ≡ i ∷ closed)
      × (list s1 ≡ [])
      × (g ≡ handed dials)
      × (list s2 ≡ dials ∷ [])
unfolding go close select handle_failed
close_reopens dial i dials closed m args reply channel reached =
    rw reached (refl, refl, refl, refl, refl)
