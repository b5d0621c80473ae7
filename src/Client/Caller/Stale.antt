-- ===== src/Client/Caller/Stale.antt =====
-- Failtry over a DirectSelector.
use myrpc.Base.{ℕ, suc, Bytes, List, [], ◌∷◌, Option, none, some, ◌≡◌, refl, false, pos, length}
use myrpc.Common.Errors.{Error}
use myrpc.Common.ErrorTypes.{RpcError, rpc_err_shutdown}
use myrpc.Client.Direct.{DirectSelector, direct, select, handle_failed}
use myrpc.Client.Caller.{
  failtry, World, returned, Completed, is_final, call, failtry_loop, failtry_round,
}

module _ (dial : ℕ → Option Error) (answer : ℕ → World DirectSelector → Option RpcError) where
  -- Failtry over a DirectSelector that has an invoker, with a MaxTry of two at least, where an
  -- invoker that was closed last answers with the shutdown error: if the first call fails with an
  -- error that allows another try, Call makes one more call and returns the shutdown error.
  pub failtry_stale :
      (completions : List ℕ → List (Option Completed)) (reply : Bytes) (n i dials : ℕ)
      (closed : List ℕ) (e : RpcError)
      → let s : DirectSelector = record { invoker = some i; dials = dials; closed = closed } in
        answer i (record { selector = s; history = []; handed = [] }) ≡ some e
        → is_final e ≡ false
        → ((w : World DirectSelector) (rest : List ℕ)
            → w.selector.closed ≡ i ∷ rest
            → answer i w ≡ some rpc_err_shutdown)
        → let (w, o) = call (direct dial) answer completions reply failtry (pos (suc (suc n))) s in
          (o ≡ returned (some rpc_err_shutdown)) × (length w.history ≡ 2)
  unfolding call failtry_loop failtry_round select handle_failed
  failtry_stale completions reply n i dials closed e first retry stale =
      let after_first : World DirectSelector = record {
        selector = record { invoker = none; dials = dials; closed = i ∷ closed };
        history = (i, some e) ∷ [];
        handed = i ∷ [];
      } in
      rw (first, retry, stale after_first closed refl) (refl, refl)
