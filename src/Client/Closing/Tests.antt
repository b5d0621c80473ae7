-- ===== src/Client/Closing/Tests.antt =====
-- A client that is closed, and used again.
use myrpc.Base.{ℕ, codes, [], ◌∷◌, Option, none, some, ◌≡◌, refl}
use myrpc.Common.Errors.{Error, message}
use myrpc.Client.Direct.{DirectSelector, direct, list, select}
use myrpc.Client.Closing.{handed, refused, go, close}
use myrpc.Client.Closing.Reopened.{close_reopens}

abbrev down : ℕ → Option Error
down _ = some (message (codes "refused"))

abbrev up : ℕ → Option Error
up _ = none

abbrev fresh : DirectSelector
fresh = record { invoker = none; dials = 0; closed = [] }

down_test :
    elim (go (direct down) (codes "/a") [] [] none fresh).1 [ refused call ch ↦ ch.queue | _ ↦ [] ]
    ≡ 0 ∷ []
unfolding go select
down_test = refl

close_reopens_example :
    let s : DirectSelector = record { invoker = some 0; dials = 1; closed = [] } in
    let (s1, twice) = close (direct up) s in
    let (s2, g) = go (direct up) (codes "/a") [] [] none s1 in
    (twice ≡ 0 ∷ []) × (s1.closed ≡ 0 ∷ []) × (list s1 ≡ []) × (g ≡ handed 1) × (list s2 ≡ 1 ∷ [])
close_reopens_example = close_reopens up 0 1 [] (codes "/a") [] [] none refl
