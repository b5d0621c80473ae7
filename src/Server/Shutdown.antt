-- ===== src/Server/Shutdown.antt =====
-- `close` of server/server.go against the loops of ServeConn: what each loop does between two looks at
-- `running`, and when its requests are counted. Server/Serve has a round of the loop as one step.
pub mod Late
mod Tests
use myrpc.Base.{
  ℕ, zero, suc, ◌-◌, List, [], ◌∷◌, Option, none, some, Bool, true, false, ◌==◌, ◌&&◌,
  if◌then◌else◌, get_elem?,
}
use myrpc.Common.Errors.{Error}

-- A loop before `isRunning`, in `readRequest`, or behind the loop.
pub data Phase : Type 0 where
  checking reading over : Phase

-- A goroutine in `close`, if any: in its `select`, or returned.
pub data Closer : Type 0 where
  absent waiting : Closer
  returned : Option Error → Closer

pub record Running : Type 0 where
  -- The listener is not nil.
  pub listening : Bool
  pub running : Bool
  pub call_group : ℕ
  pub loops : List Phase
  pub closer : Closer
  -- How many requests were read.
  pub requests : ℕ

pub data Event : Type 0 where
  checks reads hangs_up : ℕ → Event
  answers closes waited : Event
  times_out : Error → Event

abbrev pub map_at : ℕ → (Phase → Phase) → List Phase → List Phase
map_at i f [] = []
map_at zero f (p ∷ ps) = f p ∷ ps
map_at (suc i) f (p ∷ ps) = p ∷ map_at i f ps

-- `for server.isRunning()`.
abbrev pub checked : Bool → Phase → Phase
checked true checking = reading
checked false checking = over
checked r reading = reading
checked r over = over

-- `readRequest` returns with a request, and `callGroup.Add(1)`.
abbrev pub read_at : Option Phase → ℕ → Running → Running
read_at (some reading) i s = record s {
  loops = map_at i (λ _. checking) s.loops;
  call_group = suc s.call_group;
  requests = suc s.requests;
}
read_at (some checking) i s = s
read_at (some over) i s = s
read_at none i s = s

-- It returns at the end of the connection, with Add and Done.
abbrev pub hung_up : Option Phase → ℕ → Running → Running
hung_up (some reading) i s = record s { loops = map_at i (λ _. over) s.loops }
hung_up (some checking) i s = s
hung_up (some over) i s = s
hung_up none i s = s

-- `close` up to its `select`.
abbrev pub close_begun : Running → Running
close_begun s =
    if s.listening
    then if s.running
      then record s { running = false; closer = waiting }
      else record s { closer = returned none }
    else record s { closer = returned none }

-- The cases of its `select`.
abbrev pub wait_over : Closer → Option Error → Running → Running
wait_over waiting e s = record s { closer = returned e }
wait_over absent e s = s
wait_over (returned _) e s = s

-- The beginning of `serveListener`, which comes once, before all steps.
abbrev pub listened : Running → Running
listened s = record s { listening = true; running = true }

unfoldable pub step : Running → Event → Running
step s (checks i) = record s { loops = map_at i (checked s.running) s.loops }
step s (reads i) = read_at (get_elem? s.loops i) i s
step s (hangs_up i) = hung_up (get_elem? s.loops i) i s
step s answers = record s { call_group = s.call_group - 1 }
step s closes = close_begun s
step s waited = if s.call_group == 0 then wait_over s.closer none s else s
step s (times_out e) = wait_over s.closer (some e) s

unfoldable pub run : Running → List Event → Running
unfolding step
run s [] = s
run s (e ∷ es) = run (step s e) es
