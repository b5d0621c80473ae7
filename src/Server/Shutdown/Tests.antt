-- ===== src/Server/Shutdown/Tests.antt =====
-- Tests.
-- Two connections, one of them idle in its read when the server is closed.
use myrpc.Base.{false, List, [], ◌∷◌, none, ◌≡◌, refl}
use myrpc.Server.Shutdown.{
  listened, checking, absent, returned, Running, Event, checks, reads, hangs_up, answers, closes,
  waited, step, run,
}
use myrpc.Server.Shutdown.Late.{Bounded, run-Bounded}

abbrev two_loops : Running
two_loops = listened (record {
  listening = false;
  running = false;
  call_group = 0;
  loops = checking ∷ checking ∷ [];
  closer = absent;
  requests = 0;
})

abbrev before : List Event
before = checks 0 ∷ checks 1 ∷ hangs_up 1 ∷ closes ∷ waited ∷ []

-- close has returned nil, and then a request is read and being answered.
missed_test : (run two_loops before).closer ≡ returned none
unfolding run step
missed_test = refl

late_test : (run (run two_loops before) (reads 0 ∷ [])).call_group ≡ 1
unfolding run step
late_test = refl

run-Bounded_example :
    Bounded (run two_loops before) (run (run two_loops before) (reads 0 ∷ checks 0 ∷ answers ∷ []))
unfolding run step
run-Bounded_example = run-Bounded (run two_loops before) (reads 0 ∷ checks 0 ∷ answers ∷ []) refl
