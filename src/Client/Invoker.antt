-- ===== src/Client/Invoker.antt =====
-- client/client_invoker.go: one connection's calls. The goroutines that call Go and the goroutine of
-- `input` meet at two locks; the state below is what they share, and each function is a stretch of
-- code that runs under a lock, or between two stretches of its own goroutine.
pub mod Steps
pub mod Completion
pub mod Once
pub mod Runs
pub mod Behaviour
mod Tests
use myrpc.Base.{
  ℕ, suc, ◌+◌, ◌%◌, ◌^◌, Bytes, codes, beq, List, [], ◌∷◌, ◌++◌, Option, none, some, Bool, true,
  false, not, ◌&&◌, ◌||◌, ◌==◌, ltb, if◌then◌else◌, length, update, ℕ_discrete,
}
use myrpc.Common.Errors.{Error, message}
use myrpc.Common.ErrorTypes.{ErrorType, RpcError, new_rpc_error, rpc_err_shutdown, type_of_byte}
use myrpc.Common.Wire.{Response}
use myrpc.Client.Pending.{lookup, erase, insert, values}

-- A call's channel `Done` is known by a number, and a call by the number of its allocation.
pub record Call : Type 0 where
  pub service_method : Bytes
  pub args : Bytes
  pub reply : Bytes
  pub error : Option RpcError
  pub done : ℕ

-- A buffered channel of calls.
pub record Chan : Type 0 where
  pub capacity : ℕ
  pub queue : List ℕ

-- The goroutine of `input`: reading; out of its loop, with the error, and the call that holds the
-- same error object; or gone.
pub data Input : Type 0 where
  reading : Input
  failed : RpcError → Option ℕ → Input
  stopped : Input

pub record Invoker : Type 0 where
  pub seq : ℕ
  pub pending : List (ℕ × ℕ)
  pub closing : Bool
  pub shutdown : Bool
  -- The request that was encoded last, and the number of the one that holds `reqMutex`.
  pub request_seq : ℕ
  pub request_method : Bytes
  pub sending : Option ℕ
  pub input : Input
  -- The calls and channels allocated so far.
  pub calls : ℕ → Call
  pub next_call : ℕ
  pub chans : ℕ → Chan
  pub next_chan : ℕ
  -- The calls of `(*Call).done`, in order.
  pub completed : List ℕ

-- `newInvoker`, in a program that has allocated `next_chan` channels.
abbrev pub new_invoker : (ℕ → Chan) → ℕ → Invoker
new_invoker chans next_chan = record {
  seq = 0;
  pending = [];
  closing = false;
  shutdown = false;
  request_seq = 0;
  request_method = [];
  sending = none;
  input = reading;
  calls = λ _. record { service_method = []; args = []; reply = []; error = none; done = 0 };
  next_call = 0;
  chans = chans;
  next_chan = next_chan;
  completed = [];
}

-- The select of `(*Call).done`: a full channel loses the call.
abbrev pub deliver : ℕ → Chan → Chan
deliver c ch =
    if ltb (length ch.queue) ch.capacity then record ch { queue = ch.queue ++ c ∷ [] } else ch

-- `call.done()`.
unfoldable pub call_done : ℕ → Invoker → Invoker
call_done c s =
    let ch = (s.calls c).done in
    record s {
      chans = update s.chans ch (deliver c (s.chans ch));
      completed = s.completed ++ c ∷ [];
    }

-- `call.Error = e`.
abbrev pub set_error : ℕ → RpcError → Invoker → Invoker
set_error c e s = record s { calls = update s.calls c (record (s.calls c) { error = some e }) }

-- `call.Error = e; call.done()`.
unfoldable pub fail_call : ℕ → RpcError → Invoker → Invoker
unfolding call_done
fail_call c e s = call_done c (set_error c e s)

-- `send` up to the encoding of the request: the call is registered, or refused.
unfoldable pub send_begin : ℕ → Invoker → Invoker
unfolding fail_call
send_begin c s = if s.shutdown || s.closing then fail_call c rpc_err_shutdown s else record s {
  seq = (s.seq + 1) % 2 ^ 64;
  pending = insert s.seq c s.pending;
  request_seq = s.seq;
  request_method = (s.calls c).service_method;
  sending = some s.seq;
}

abbrev fail_found : Option ℕ → RpcError → Invoker → Invoker
fail_found none e s = s
fail_found (some c) e s = fail_call c e s

-- `send` after `WriteRequest` has returned, to the release of `reqMutex`.
unfoldable pub send_end : ℕ → Option RpcError → Invoker → Invoker
unfolding fail_call
send_end seq none s = record s { sending = none }
send_end seq (some e) s =
    fail_found (lookup seq s.pending) e (record s { sending = none; pending = erase seq s.pending })

-- `make(chan *Call, capacity)`, which is known by the number `s.next_chan`.
abbrev pub make_chan : ℕ → Invoker → Invoker
make_chan capacity s = record s {
  chans = update s.chans s.next_chan (record { capacity = capacity; queue = [] });
  next_chan = suc s.next_chan;
}

-- `new(Call)` with its fields, which is known by the number `s.next_call`.
abbrev pub new_call : Bytes → Bytes → Bytes → ℕ → Invoker → Invoker
new_call service_method args reply done s = record s {
  calls = update s.calls s.next_call (record {
    service_method = service_method;
    args = args;
    reply = reply;
    error = none;
    done = done;
  });
  next_call = suc s.next_call;
}

-- `Go`, up to the encoding; `none` for a nil channel. An unbuffered channel makes it panic, which is
-- `none` here.
unfoldable pub go : Bytes → Bytes → Bytes → Option ℕ → Invoker → Option Invoker
unfolding send_begin
go service_method args reply none s =
    some (send_begin s.next_call (new_call service_method args reply s.next_chan (make_chan 10 s)))
go service_method args reply (some ch) s =
    if (s.chans ch).capacity == 0
    then none
    else some (send_begin s.next_call (new_call service_method args reply ch s))

-- `Close`; the second result is its error, that of the codec's `Close` where this is the first call.
unfoldable pub close : Option Error → Invoker → Invoker × Option Error
close codec_err s =
    if s.closing
    then (s, some (message rpc_err_shutdown.error))
    else (record s { closing = true }, codec_err)

-- `parseResponseError`; an empty text, on which it panics, never reaches it.
unfoldable pub parse_response_error : Bytes → RpcError
parse_response_error [] = new_rpc_error (type_of_byte 0) []
parse_response_error (b ∷ text) = new_rpc_error (type_of_byte b) text

-- What the codec wrapper returns for a body.
pub data BodyRead : Type 0 where
  decoded : Bytes → BodyRead
  undecoded : RpcError → BodyRead

abbrev read_error : BodyRead → Input
read_error (decoded _) = reading
read_error (undecoded e) = failed e none

-- The switch of `input` after a header: no such call, an error response, or a reply.
abbrev pub handle_response : Option ℕ → Bytes → BodyRead → Invoker → Invoker
handle_response none text body s = record s { input = read_error body }
handle_response (some c) (b ∷ text) body s =
    call_done c
      (record (set_error c (parse_response_error (b ∷ text)) s) { input = read_error body })
handle_response (some c) [] (decoded v) s =
    call_done c (record s { calls = update s.calls c (record (s.calls c) { reply = v }) })
handle_response (some c) [] (undecoded e) s =
    call_done c (record (set_error c e s) { input = failed e (some c) })

-- One round of the loop of `input` whose header was read.
unfoldable pub receive : Response → BodyRead → Invoker → Invoker
unfolding call_done parse_response_error
receive r body s =
    handle_response (lookup r.seq s.pending) r.error body
      (record s { pending = erase r.seq s.pending })

-- A round whose header was not read.
abbrev pub receive_failed : RpcError → Invoker → Invoker
receive_failed e s = record s { input = failed e none }

-- `io.EOF.Error()` and `io.ErrUnexpectedEOF.Error()`.
abbrev eof_text : Bytes
eof_text = codes "EOF"

abbrev pub unexpected_eof_text : Bytes
unexpected_eof_text = codes "unexpected EOF"

abbrev set_error_of : Option ℕ → RpcError → Invoker → Invoker
set_error_of none e s = s
set_error_of (some c) e s = set_error c e s

-- The range loop over the pending calls.
unfoldable pub fail_all : List ℕ → RpcError → Invoker → Invoker
unfolding fail_call
fail_all [] e s = s
fail_all (c ∷ cs) e s = fail_all cs e (fail_call c e s)

-- The end of `input`. An EOF that was not asked for is written into the error object itself, so
-- `holder`, a call that holds the object, shows it too.
unfoldable pub terminate : RpcError → Option ℕ → Invoker → Invoker
unfolding fail_all
terminate e holder s =
    let down = record s { shutdown = true; input = stopped } in
    let unexpected = record e { error = unexpected_eof_text } in
    if beq e.error eof_text
    then if s.closing
      then fail_all (values s.pending) rpc_err_shutdown down
      else fail_all (values s.pending) unexpected (set_error_of holder unexpected down)
    else fail_all (values s.pending) e down
