-- ===== src/Server/Shutdown/Late.antt =====
-- Requests that are read after `close` has stopped the server.
use myrpc.Base.{
  ℕ, zero, suc, ◌+◌, ◌≤◌, List, [], ◌∷◌, Option, none, some, Bool, true, false, ◌==◌, if◌then◌else◌,
  get_elem?, ◌≡◌, refl, arith,
}
use myrpc.Common.Errors.{Error}
use myrpc.Server.Shutdown.{
  Phase, checking, reading, over, Closer, absent, waiting, returned, Running, Event, checks, reads,
  hangs_up, answers, closes, waited, times_out, map_at, checked, read_at, hung_up, wait_over, step,
  run,
}

-- How many loops are in `readRequest`.
abbrev pub reader : Phase → ℕ
reader reading = 1
reader checking = 0
reader over = 0

abbrev pub readers : List Phase → ℕ
readers [] = 0
readers (p ∷ ps) = reader p + readers ps

checked_stopped : (p : Phase) → reader (checked false p) ≤ reader p
checked_stopped checking = omega arith
checked_stopped reading = omega arith
checked_stopped over = omega arith

checks_stopped : (i : ℕ) (ps : List Phase) → readers (map_at i (checked false) ps) ≤ readers ps
checks_stopped i [] = omega arith
checks_stopped zero (p ∷ ps) = omega (arith, checked_stopped p)
checks_stopped (suc i) (p ∷ ps) = omega (arith, checks_stopped i ps)

-- A reader that becomes something else.
leaves :
    (i : ℕ) (q : Phase) (ps : List Phase)
    → get_elem? ps i ≡ some reading
    → reader q ≡ 0
    → readers (map_at i (λ _. q) ps) + 1 ≡ readers ps
leaves i q [] here none_reads = cc
leaves zero q (reading ∷ ps) here none_reads = omega (arith, none_reads)
leaves zero q (checking ∷ ps) here none_reads = cc
leaves zero q (over ∷ ps) here none_reads = cc
leaves (suc i) q (p ∷ ps) here none_reads = omega (arith, leaves i q ps here none_reads)

-- The server stays stopped, and what it can still read does not grow.
pub record Bounded (s s' : Running) : Type 0 where
  pub stopped : s'.running ≡ false
  pub bound : s'.requests + readers s'.loops ≤ s.requests + readers s.loops

read_at-Bounded :
    (o : Option Phase) (i : ℕ) (s : Running)
    → get_elem? s.loops i ≡ o
    → s.running ≡ false
    → Bounded s (read_at o i s)
read_at-Bounded (some reading) i s here halted = record {
  stopped = halted;
  bound = omega (arith, leaves i checking s.loops here refl);
}
read_at-Bounded (some checking) i s here halted = record { stopped = halted; bound = omega arith }
read_at-Bounded (some over) i s here halted = record { stopped = halted; bound = omega arith }
read_at-Bounded none i s here halted = record { stopped = halted; bound = omega arith }

hung_up-Bounded :
    (o : Option Phase) (i : ℕ) (s : Running)
    → get_elem? s.loops i ≡ o
    → s.running ≡ false
    → Bounded s (hung_up o i s)
hung_up-Bounded (some reading) i s here halted = record {
  stopped = halted;
  bound = omega (arith, leaves i over s.loops here refl);
}
hung_up-Bounded (some checking) i s here halted = record { stopped = halted; bound = omega arith }
hung_up-Bounded (some over) i s here halted = record { stopped = halted; bound = omega arith }
hung_up-Bounded none i s here halted = record { stopped = halted; bound = omega arith }

Bounded-refl : (s : Running) → s.running ≡ false → Bounded s s
Bounded-refl s halted = record { stopped = halted; bound = omega arith }

wait_over-Bounded :
    (c : Closer) (e : Option Error) (s : Running) → s.running ≡ false → Bounded s (wait_over c e s)
wait_over-Bounded waiting e s halted = record { stopped = halted; bound = omega arith }
wait_over-Bounded absent e s halted = Bounded-refl s halted
wait_over-Bounded (returned _) e s halted = Bounded-refl s halted

if-Bounded :
    (b : Bool) (s t u : Running) → Bounded s t → Bounded s u → Bounded s (if b then t else u)
if-Bounded true s t u bt bu = bt
if-Bounded false s t u bt bu = bu

checks-Bounded :
    (r : Bool) (i : ℕ) (s : Running)
    → s.running ≡ r
    → r ≡ false
    → Bounded s (record s { loops = map_at i (checked r) s.loops })
checks-Bounded true i s same halted = cc
checks-Bounded false i s same halted = record {
  stopped = same;
  bound = omega (arith, checks_stopped i s.loops);
}

step-Bounded : (s : Running) (e : Event) → s.running ≡ false → Bounded s (step s e)
unfolding step
step-Bounded s (checks i) halted = checks-Bounded s.running i s refl halted
step-Bounded s (reads i) halted = read_at-Bounded (get_elem? s.loops i) i s refl halted
step-Bounded s (hangs_up i) halted = hung_up-Bounded (get_elem? s.loops i) i s refl halted
step-Bounded s answers halted = record { stopped = halted; bound = omega arith }
step-Bounded s closes halted =
    if-Bounded s.listening s _ _
      (if-Bounded s.running s _ _ (record { stopped = refl; bound = omega arith })
        (record { stopped = halted; bound = omega arith }))
      (record { stopped = halted; bound = omega arith })
step-Bounded s waited halted =
    if-Bounded (s.call_group == 0) s _ _ (wait_over-Bounded s.closer none s halted)
      (Bounded-refl s halted)
step-Bounded s (times_out e) halted = wait_over-Bounded s.closer (some e) s halted

-- Once a server was stopped it stays so, and in whatever order its loops, answers and calls of close go
-- on, it reads at most as many further requests as there were loops in readRequest when it stopped,
-- less those that are there still.
pub run-Bounded : (s : Running) (es : List Event) → s.running ≡ false → Bounded s (run s es)
unfolding run
run-Bounded s [] halted = Bounded-refl s halted
run-Bounded s (e ∷ es) halted =
    let one = step-Bounded s e halted in
    let rest = run-Bounded (step s e) es one.stopped in
    record { stopped = rest.stopped; bound = omega (arith, one.bound, rest.bound) }
