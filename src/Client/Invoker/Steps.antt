-- ===== src/Client/Invoker/Steps.antt =====
-- The interleavings of an invoker's goroutines, as a list of events.
use myrpc.Base.{ℕ, Bytes, List, [], ◌∷◌, Option, none, some}
use myrpc.Common.ErrorTypes.{RpcError}
use myrpc.Common.Wire.{Response}
use myrpc.Client.Invoker.{
  Input, reading, failed, Invoker, BodyRead, go, send_end, close, receive, receive_failed,
  terminate,
}

-- `goes`: a caller runs Go up to the encoding, with its own channel or nil. `sent`: the codec has
-- taken the request, or refused it. `received`, `broken`: a round of `input`. `ends`: the end of
-- `input`. `closes`: a caller runs Close; the error of the codec's Close goes to the caller alone.
pub data Event : Type 0 where
  goes : Bytes → Bytes → Bytes → Option ℕ → Event
  sent : Option RpcError → Event
  received : Response → BodyRead → Event
  broken : RpcError → Event
  ends : Event
  closes : Event

-- Go needs `reqMutex`; one that panics changes nothing that is shared.
abbrev pub step_go : Option ℕ → Option Invoker → Invoker → Invoker
step_go none (some s') s = s'
step_go none none s = s
step_go (some _) _ s = s

abbrev pub step_sent : Option ℕ → Option RpcError → Invoker → Invoker
step_sent none e s = s
step_sent (some seq) e s = send_end seq e s

abbrev pub step_received : Input → Response → BodyRead → Invoker → Invoker
step_received reading r body s = receive r body s
step_received _ r body s = s

abbrev pub step_broken : Input → RpcError → Invoker → Invoker
step_broken reading e s = receive_failed e s
step_broken _ e s = s

-- The end of `input` needs `reqMutex` too.
abbrev pub step_ends : Input → Option ℕ → Invoker → Invoker
step_ends (failed e holder) none s = terminate e holder s
step_ends _ _ s = s

-- An event that the locks or the goroutine's place in its code do not allow changes nothing.
unfoldable pub step : Invoker → Event → Invoker
step s (goes service_method args reply done) =
    step_go s.sending (go service_method args reply done s) s
step s (sent e) = step_sent s.sending e s
step s (received r body) = step_received s.input r body s
step s (broken e) = step_broken s.input e s
step s ends = step_ends s.input s.sending s
step s closes = (close none s).0

unfoldable pub run : Invoker → List Event → Invoker
unfolding step
run s [] = s
run s (e ∷ es) = run (step s e) es
