-- ===== src/Idempotency/Replays.antt =====
-- What a repeated request gets.
use eitoh_forge.Prelude.{ℕ, ◌<◌, String, List, [], ◌∷◌}
use eitoh_forge.Prelude.Bytes.{Bytes}
use eitoh_forge.Idempotency.{
  IdempotencyRule, IdempotencyStore, WriteRequest, WriteResponse, IdempotencyAnswer,
  idempotency_middleware,
}

module _ {W : Type 0} (upper lower : String → String) (sha256 : Bytes → String)
    (call_next : WriteRequest → W → WriteResponse × W) where
  abbrev serve :
      IdempotencyRule
      → IdempotencyStore
      → WriteRequest
      → (now stored_at : ℕ) → W
      → IdempotencyAnswer × IdempotencyStore × W
  serve = idempotency_middleware upper lower sha256 call_next

  -- The store and the world after requests, each with the two readings of the clock
  unfoldable pub serve_writes :
      IdempotencyRule → List (WriteRequest × ℕ × ℕ) → IdempotencyStore × W → IdempotencyStore × W
  serve_writes rule [] s = s
  serve_writes rule ((request, now, stored_at) ∷ requests) (store, w) =
      let (answer, store', w') = serve rule store request now stored_at w in
      serve_writes rule requests (store', w')

  -- The requests come before a time.
  abbrev pub Before : ℕ → List (WriteRequest × ℕ × ℕ) → Type 0
  Before time [] = Unit {0}
  Before time ((request, now, stored_at) ∷ requests) = (now < time) × Before time requests
