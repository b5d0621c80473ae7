-- ===== src/Server/Grace.antt =====
-- server/grace.go: the servers of a program, and their orderly end. The errors of the servers' `close`
-- and of the finalizers are given; the deadline may pass at any moment. `shutdown` is modelled from
-- where `count.Wait()` has returned: a `close` that blocks, or whose report of an error panics since the
-- listener is nil, never comes there, and nothing is said of it.
pub mod Graceful
pub mod Ends
mod Tests
use myrpc.Base.{
  ℕ, zero, suc, ◌+◌, ◌*◌, ◌-◌, ◌^◌, List, [], ◌∷◌, ◌++◌, Option, none, some, Bool, true, false,
  ◌&&◌, if◌then◌else◌, ℤ, pos, negsuc,
}
use myrpc.Common.Errors.{Error}

-- The error that a finalizer returns; `none` for a function that is nil.
abbrev pub Finalizer : Type 0
Finalizer = Option (Option Error)

-- The variables of the package.
pub record Grace : Type 0 where
  pub servers : List ℕ
  pub finalizers : List Finalizer
  pub shutdown_timeout : ℤ

-- `SHUTDOWN_TIMEOUT`, a minute, in nanoseconds.
abbrev pub default_timeout : ℤ
default_timeout = pos 60000000000

abbrev pub new_grace : Grace
new_grace = record { servers = []; finalizers = []; shutdown_timeout = default_timeout }

-- `addServers`.
unfoldable pub add_servers : List ℕ → Grace → Grace
add_servers srvs g = record g { servers = g.servers ++ srvs }

abbrev pub timeout_of : ℤ → ℤ
timeout_of (pos zero) = default_timeout
timeout_of (pos (suc n)) = pos (suc n)
timeout_of (negsuc n) = pos (2 ^ 63 - 1)

-- `SetShutdown`.
unfoldable pub set_shutdown : ℤ → List Finalizer → Grace → Grace
set_shutdown timeout fn g = record g { shutdown_timeout = timeout_of timeout; finalizers = fn }

-- `Shutdown` up to `shutdown`.
unfoldable pub shutdown_with : Option ℤ → Grace → Grace
unfolding set_shutdown
shutdown_with none g = g
shutdown_with (some timeout) g = set_shutdown timeout g.finalizers g

-- `is_nil` of an error.
abbrev pub fine : Option Error → Bool
fine none = true
fine (some e) = false

-- What `flag` is after all servers were closed, in whatever order.
abbrev pub close_all : List (Option Error) → Bool
close_all [] = true
close_all (e ∷ es) = fine e && close_all es

-- `shutdown` after `count.Wait()` has returned: what the goroutine of the finalizers has still to look at, the one
-- that it is in, if any, with the error that it will return, and those that have begun; and whether it
-- has closed `fchan`.
pub record Ending : Type 0 where
  pub flag : Bool
  pub todo : List Finalizer
  pub index : ℕ
  pub inside : Option (Option Error)
  pub begun : List ℕ
  pub closed : Bool
  pub expired : Bool
  pub result : Option Bool

abbrev pub new_ending : List (Option Error) → List Finalizer → Ending
new_ending closes fs = record {
  flag = close_all closes;
  todo = fs;
  index = 0;
  inside = none;
  begun = [];
  closed = false;
  expired = false;
  result = none;
}

-- `works`: the goroutine goes on, to the next call or the return of a finalizer. `expires`: the deadline
-- passes. `sees_done`, `sees_closed`: the last `select` takes that case, if it is ready.
pub data Event : Type 0 where
  works expires sees_done sees_closed : Event

abbrev pub next : List Finalizer → Ending → Ending
next [] s = record s { closed = true }
next (none ∷ fs) s = record s { todo = fs; index = suc s.index }
next (some e ∷ fs) s = if s.expired then record s { todo = fs; index = suc s.index } else record s {
  todo = fs;
  index = suc s.index;
  inside = some e;
  begun = s.begun ++ s.index ∷ [];
}

abbrev pub work : Option (Option Error) → Ending → Ending
work none s = next s.todo s
work (some e) s = record s { flag = s.flag && fine e; inside = none }

-- The `select` of `shutdown`, and its `return flag == 1`.
abbrev pub ended : Bool → Option Bool → Bool → Ending → Ending
ended ready none flag s = if ready then record s { flag = flag; result = some flag } else s
ended ready (some r) flag s = s

unfoldable pub step : Ending → Event → Ending
step s works = work s.inside s
step s expires = record s { expired = true }
step s sees_done = ended s.expired s.result false s
step s sees_closed = ended s.closed s.result s.flag s

unfoldable pub run : Ending → List Event → Ending
unfolding step
run s [] = s
run s (e ∷ es) = run (step s e) es
