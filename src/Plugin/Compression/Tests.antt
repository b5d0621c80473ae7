-- ===== src/Plugin/Compression/Tests.antt =====
-- Tests.
-- A writer that holds what it is given and sends it on when it is flushed.
use myrpc.Base.{Bytes, [], ◌∷◌, ◌++◌, none, ◌≡◌, refl, append-nil, append_assoc, sym}
use myrpc.Plugin.Compression.{Encoder, Encoders, new_compress_conn, compress_write, compress_writes}
use myrpc.Plugin.Compression.Delivery.{IsFlushing, flate_delivers}

-- What it has sent on, and what it holds.
abbrev holding : Encoder (Bytes × Bytes)
holding = record {
  start = ([], []);
  put = λ (out, h) b. ((out, h ++ b), [], none);
  flush = λ (out, h). ((out ++ h, []), h, none);
}

abbrev holdings : Encoders (Bytes × Bytes)
holdings = record { flate = holding; snappy = holding; lz4 = holding }

holding-IsFlushing : IsFlushing holding (λ (out, h). out ++ h) (λ (out, h). out) (λ b. b)
holding-IsFlushing = record {
  content_start = refl;
  emitted_start = refl;
  put_lem = λ (out, h) b. (sym (append_assoc out h b), sym (append-nil out), refl);
  flush_lem = λ (out, h). (append-nil (out ++ h), refl, refl);
}

snappy_test :
    (compress_writes holdings ((1 ∷ 2 ∷ []) ∷ (3 ∷ []) ∷ []) (new_compress_conn holdings 2)).sent
    ≡ []
unfolding compress_writes compress_write new_compress_conn
snappy_test = refl

flate_test :
    (compress_writes holdings ((1 ∷ 2 ∷ []) ∷ (3 ∷ []) ∷ []) (new_compress_conn holdings 1)).sent
    ≡ 1 ∷ 2 ∷ 3 ∷ []
flate_test =
    flate_delivers holdings (λ (out, h). out ++ h) (λ (out, h). out) (λ b. b) (1 ∷ 2 ∷ [])
      ((3 ∷ []) ∷ []) holding-IsFlushing
