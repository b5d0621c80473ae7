-- ===== src/Client/Closing.antt =====
-- client/client.go: Go and Close, over any selector.
pub mod Reopened
mod Tests
use myrpc.Base.{ℕ, Bytes, List, [], ◌∷◌, Option, none, some, ◌==◌, if◌then◌else◌}
use myrpc.Common.Errors.{Error, error_text}
use myrpc.Common.ErrorTypes.{new_rpc_error, error_type_client_connect}
use myrpc.Client.Invoker.{Call, Chan, deliver}
use myrpc.Client.Selector.{Selector}

-- What `Go` does: it hands the call to an invoker; or gives back a call of its own, with its channel after
-- `call.done()`; or it panics.
pub data Gone : Type 0 where
  handed : ℕ → Gone
  refused : Call → Chan → Gone
  panicked : Gone

-- The call that `Go` makes where there is no invoker; its number and that of its channel are new.
abbrev pub refused_call : Bytes → Bytes → Bytes → Error → Call
refused_call service_method args reply e = record {
  service_method = service_method;
  args = args;
  reply = reply;
  error = some (new_rpc_error error_type_client_connect (error_text e));
  done = 0;
}

abbrev pub gone : Bytes → Bytes → Bytes → Option Chan → Option ℕ → Option Error → Gone
gone service_method args reply channel (some i) none = handed i
gone service_method args reply channel none none = panicked
gone service_method args reply none i (some e) =
    refused (refused_call service_method args reply e)
      (deliver 0 (record { capacity = 1; queue = [] }))
gone service_method args reply (some ch) i (some e) =
    if ch.capacity == 0
    then panicked
    else refused (refused_call service_method args reply e) (deliver 0 ch)

module _ {S : Type 0} (sel : Selector S) where
  -- `Go`; The channel `done` is none where it is nil.
  unfoldable pub go : Bytes → Bytes → Bytes → Option Chan → S → S × Gone
  go service_method args reply channel s =
      let (s', n) = sel.select s in (s', gone service_method args reply channel n.invoker n.err)

  -- The loop of `Close`: HandleFailed, and then `invoker.Close()`, whose calls are listed, newest first.
  abbrev pub close_each : List ℕ → S × List ℕ → S × List ℕ
  close_each [] t = t
  close_each (i ∷ is) (s, closed) = close_each is (sel.handle_failed i s, i ∷ closed)

  unfoldable pub close : S → S × List ℕ
  close s = close_each (sel.list s) (s, [])
