-- ===== src/Codec/Gob/Tests.antt =====
-- Requests and responses of a gob codec.
use myrpc.Base.{codes, ◌++◌, List, [], ◌∷◌, none, some, ◌≡◌, refl, arith}
use myrpc.Common.Errors.{eof, message, Error}
use myrpc.Codec.Wire.{Link}
use myrpc.Codec.Buffered.{Writer, flush, write}
use myrpc.Codec.Buffered.Streams.{sent, stream}
use myrpc.Codec.Gob.{new_writer, new_gob_server_codec, write_request}
use myrpc.Codec.Gob.Orderly.{Op, responds, closes, Orderly, frames_from, run, run-Orderly}
use myrpc.Codec.Gob.Requests.{Requested, write_request-Requested, write_request_stale}

abbrev fresh : Link
fresh = record { chunks = []; ending = eof; takes = []; out = []; closed = 0 }

abbrev untyped : Error
untyped = message (codes "gob: type not registered")

-- A small writer, which spills.
abbrev small : Writer
small = record { size = 3; buffered = 9 ∷ []; failure = none; link = fresh }

small_test : (write (1 ∷ 2 ∷ 3 ∷ 4 ∷ []) small).link.out ≡ (9 ∷ 1 ∷ 2 ∷ []) ∷ []
unfolding write flush
small_test = refl

abbrev failing : List Op
failing =
    responds (1 ∷ [], none) (2 ∷ [], none)
    ∷ responds (3 ∷ [], none) (4 ∷ [], some untyped)
    ∷ closes
    ∷ []

run-Orderly_example :
    Orderly (frames_from (some []) failing) fresh (run (new_gob_server_codec fresh) failing)
run-Orderly_example = run-Orderly fresh failing refl

spilled_test :
    Requested
      (1 ∷ 2 ∷ [], none)
      (3 ∷ 4 ∷ [], none)
      small
      (write_request (1 ∷ 2 ∷ [], none) (3 ∷ 4 ∷ [], none) small)
spilled_test =
    write_request-Requested (1 ∷ 2 ∷ [], none) (3 ∷ 4 ∷ [], none) small
      (record { takes = refl; failure = refl; fits = omega arith })

write_request_stale_example :
    let (err, w1) = write_request (1 ∷ [], none) ([], some untyped) (new_writer fresh) in
    let (err', w2) = write_request (2 ∷ [], none) (3 ∷ [], none) w1 in
    (err ≡ some untyped)
    × (err' ≡ none)
    × (sent w2.link.out ≡ (stream (new_writer fresh) ++ (1 ∷ [] ++ [])) ++ (2 ∷ [] ++ 3 ∷ []))
    × (w2.link.closed ≡ 0)
write_request_stale_example =
    write_request_stale (1 ∷ []) [] (2 ∷ []) (3 ∷ []) untyped (new_writer fresh)
      (record { takes = refl; failure = refl; fits = omega arith })
