-- ===== src/RateLimit/Tests.antt =====
-- The limiter at concrete attempts.
use liminalis.Common.{ℕ, ◌≡◌, ◌≤◌, refl, none, some, [], ◌∷◌, arith}
use liminalis.Common.Table.{find}
use liminalis.RateLimit.{Attempt, Bucket}
use liminalis.RateLimit.Window.{passed, passed-bounded}

abbrev try_at : ℕ → Attempt
try_at now = record { now = now; bucket_key = 5; limit = 2; window_ms = 1000 }

passed-bounded_example : passed 5 (try_at 100 ∷ try_at 200 ∷ try_at 300 ∷ try_at 400 ∷ []) [] ≤ 2
passed-bounded_example =
    passed-bounded (try_at 100) (try_at 200 ∷ try_at 300 ∷ try_at 400 ∷ []) [] (omega arith)
      (omega arith) no_bucket
      (omega arith, (λ e. refl), (omega arith, (λ e. refl), (omega arith, (λ e. refl), tt)))
  where
    no_bucket : (b : Bucket) → find 5 [] ≡ some b → b.reset_at ≤ 100
    no_bucket b e = absurd (unfold find in no e)
      where
        no : none ≡ some b → ⊥
        no p = cc
