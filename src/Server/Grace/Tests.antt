-- ===== src/Server/Grace/Tests.antt =====
-- Ends of a program with one server and three finalizers.
use myrpc.Base.{codes, List, [], ◌∷◌, Option, pos, none, some, true, false, ◌≡◌, ◌⊎◌, refl}
use myrpc.Common.Errors.{Error, message}
use myrpc.Server.Grace.{
  Finalizer, close_all, new_ending, Event, works, expires, sees_done, sees_closed, step, run,
  set_shutdown, shutdown_with, new_grace, default_timeout,
}
use myrpc.Server.Grace.Graceful.{live, all_fine, run-Graceful}
use myrpc.Server.Grace.Ends.{repeat, shutdown_skips}

abbrev closes : List (Option Error)
closes = none ∷ []

-- The second one is nil.
abbrev finalizers : List Finalizer
finalizers = some none ∷ none ∷ some none ∷ []

abbrev failing : List Finalizer
failing = some (some (message (codes "disk full"))) ∷ []

timeout_test : (shutdown_with (some (pos 0)) new_grace).shutdown_timeout ≡ default_timeout
unfolding shutdown_with set_shutdown
timeout_test = refl

failing_test :
    (run (new_ending closes failing) (works ∷ works ∷ works ∷ sees_closed ∷ [])).result ≡ some false
unfolding run step
failing_test = refl

-- The deadline passes inside the first finalizer, and both channels are ready at the end.
late_test :
    let s =
      run
        (new_ending closes finalizers)
        (works ∷ expires ∷ works ∷ works ∷ works ∷ works ∷ sees_closed ∷ sees_done ∷ []) in
    (s.result ≡ some true) × (s.begun ≡ 0 ∷ [])
unfolding run step
late_test = (refl, refl)

abbrev history : List Event
history = works ∷ works ∷ works ∷ works ∷ works ∷ works ∷ sees_closed ∷ []

run-Graceful_example :
    let s = run (new_ending closes finalizers) history in
    (close_all closes ≡ true)
    × ((s.expired ≡ true) ⊎ ((s.begun ≡ live 0 finalizers) × (all_fine finalizers ≡ true)))
unfolding run step
run-Graceful_example = run-Graceful closes finalizers history refl

shutdown_skips_example :
    let s = run (new_ending closes finalizers) (expires ∷ repeat 7 (sees_closed ∷ [])) in
    (s.result ≡ some (close_all closes)) × (s.begun ≡ [])
shutdown_skips_example = shutdown_skips closes finalizers
