-- ===== src/RateLimit.antt =====
-- apps/api/src/common/security/rate-limit.service.ts: the limiter of attempts. A bucket's key, the
-- hash of a scope with an address and other parts, is a number; a request brings its own.
pub mod Window
pub mod Tests
use liminalis.Common.{
  ℕ, ◌+◌, Bool, true, false, Option, none, some, List, [], ◌∷◌, leb, ltb, length, if◌then◌else◌,
}
use liminalis.Common.Exec.{Result, ok, err, too_many_requests}
use liminalis.Common.Table.{Table, find, update, create}
use liminalis.Schema.{Reason, too_many_attempts}

pub record Bucket : Type 0 where
  pub count : ℕ
  pub reset_at : ℕ

pub record Attempt : Type 0 where
  pub now : ℕ
  pub bucket_key : ℕ
  pub limit : ℕ
  pub window_ms : ℕ

unfoldable pub drop_expired : ℕ → Table Bucket → Table Bucket
drop_expired now [] = []
drop_expired now ((key, bucket) ∷ buckets) =
    let rest = drop_expired now buckets in
    if leb bucket.reset_at now then rest else (key, bucket) ∷ rest

-- `prune`
unfoldable pub prune : ℕ → Table Bucket → Table Bucket
unfolding drop_expired
prune now buckets = if ltb (length buckets) 10000 then buckets else drop_expired now buckets

-- `Map.set`
unfoldable pub set_bucket : ℕ → Bucket → Option Bucket → Table Bucket → Table Bucket
set_bucket key bucket none buckets = create key bucket buckets
set_bucket key bucket (some old) buckets = update key (λ b. bucket) buckets

unfoldable pub open_window : Attempt → Option Bucket → Table Bucket → Table Bucket
unfolding prune set_bucket
open_window a existing buckets = prune a.now (
    set_bucket a.bucket_key (record { count = 1; reset_at = a.now + a.window_ms }) existing buckets)

-- The count goes up before the test, and stays up when it fails.
unfoldable pub count_attempt :
    Attempt → Bucket → Table Bucket → Result Reason (Unit {0}) × Table Bucket
count_attempt a bucket buckets = (
  if ltb a.limit (bucket.count + 1) then err (too_many_requests too_many_attempts) else ok tt,
  update a.bucket_key (λ b. record b { count = b.count + 1 }) buckets,
)

unfoldable pub try_bucket :
    Attempt → Option Bucket → Table Bucket → Result Reason (Unit {0}) × Table Bucket
unfolding open_window count_attempt
try_bucket a none buckets = (ok tt, open_window a none buckets)
try_bucket a (some bucket) buckets =
    if leb bucket.reset_at a.now
    then (ok tt, open_window a (some bucket) buckets)
    else count_attempt a bucket buckets

-- `disabled` is the answer of the private test of the environment.
unfoldable pub assert_allowed :
    Bool → Attempt → Table Bucket → Result Reason (Unit {0}) × Table Bucket
unfolding try_bucket
assert_allowed disabled a buckets =
    if disabled then (ok tt, buckets) else try_bucket a (find a.bucket_key buckets) buckets
