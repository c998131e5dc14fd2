-- ===== src/RateLimit/Window.antt =====
-- At most the limit of attempts pass in a window.
use liminalis.Common.{
  ◌-◌, ℕ, ◌+◌, ◌≤◌, ◌<◌, ◌≡◌, refl, sym, subst, ◌∙◌, true, false, Option, none, some, List, [], ◌∷◌,
  arith, leb, ltb, ◌==◌, ==_iff, ==_self, length, if◌then◌else◌, inl, inr, Bool-cases,
}
use liminalis.Common.Exec.{Result, ok, is_ok}
use liminalis.Common.Table.{Table, find, update, find-update, find-create, find-update_self}
use liminalis.Schema.{Reason}
use liminalis.RateLimit.{
  Bucket, Attempt, drop_expired, prune, set_bucket, open_window, count_attempt, try_bucket,
  assert_allowed,
}

find-drop_expired :
    (now key : ℕ) (buckets : Table Bucket) (b : Bucket)
    → find key buckets ≡ some b
    → now < b.reset_at
    → find key (drop_expired now buckets) ≡ some b
unfolding find drop_expired
find-drop_expired now key [] b h l = cc
find-drop_expired now key ((j, c) ∷ buckets) b h l =
    ground (arith, find-drop_expired now key buckets b)

find-prune :
    (now key : ℕ) (buckets : Table Bucket) (b : Bucket)
    → find key buckets ≡ some b
    → now < b.reset_at
    → find key (prune now buckets) ≡ some b
unfolding prune
find-prune now key buckets b h l = elim (Bool-cases (ltb (length buckets) 10000)) [
  | inl few ↦ rw (few, if◌then◌else◌) h
  | inr many ↦ rw (many, if◌then◌else◌) (find-drop_expired now key buckets b h l)
]

find-set_bucket :
    (key other : ℕ) (bucket : Bucket) (old : Option Bucket) (buckets : Table Bucket)
    → (other == key) ≡ false
    → find key (set_bucket other bucket old buckets) ≡ find key buckets
unfolding set_bucket
find-set_bucket key other bucket none buckets e = rw (find-create, e)
find-set_bucket key other bucket (some old) buckets e = rw (find-update, e)

-- A bucket whose window is open is left by the attempts of other keys.
try_bucket-other :
    (a : Attempt) (key : ℕ) (existing : Option Bucket) (buckets : Table Bucket) (b : Bucket)
    → (a.bucket_key == key) ≡ false
    → find key buckets ≡ some b
    → a.now < b.reset_at
    → find key (try_bucket a existing buckets).1 ≡ some b
unfolding try_bucket open_window count_attempt
try_bucket-other a key none buckets b e h l =
    find-prune a.now key _ b (find-set_bucket key a.bucket_key _ none buckets e ∙ h) l
try_bucket-other a key (some c) buckets b e h l = elim (Bool-cases (leb c.reset_at a.now)) [
  | inl over ↦
      rw (over, if◌then◌else◌)
        (find-prune a.now key _ b (find-set_bucket key a.bucket_key _ (some c) buckets e ∙ h) l)
  | inr running ↦ rw (running, if◌then◌else◌) (rw (find-update, e) h)
]

-- How many of the attempts on a key pass.
abbrev passes : Result Reason (Unit {0}) → ℕ
passes r = if is_ok r then 1 else 0

unfoldable pub passed : ℕ → List Attempt → Table Bucket → ℕ
passed key [] buckets = 0
passed key (a ∷ attempts) buckets =
    (if a.bucket_key == key then passes (assert_allowed false a buckets).0 else 0)
    + passed key attempts (assert_allowed false a buckets).1

-- Attempts before a deadline, those on the key with the limit.
abbrev pub Within : ℕ → ℕ → ℕ → List Attempt → Type 0
Within key limit deadline [] = Unit
Within key limit deadline (a ∷ attempts) =
    (a.now < deadline) × (a.bucket_key ≡ key → a.limit ≡ limit) × Within key limit deadline attempts

-- An attempt on a bucket whose window is open.
assert_allowed-counts :
    (a : Attempt) (buckets : Table Bucket) (b : Bucket)
    → find a.bucket_key buckets ≡ some b
    → a.now < b.reset_at
    → assert_allowed false a buckets ≡ count_attempt a b buckets
unfolding assert_allowed try_bucket
assert_allowed-counts a buckets b h l = rw (h, not_over b.reset_at a.now l)
  where
    not_over : (m n : ℕ) → n < m → leb m n ≡ false
    not_over m n k = ground arith

counted :
    (limit : ℕ) (a : Attempt) (b : Bucket) (buckets : Table Bucket) {n : ℕ}
    → a.limit ≡ limit
    → n ≤ limit - (b.count + 1)
    → passes (count_attempt a b buckets).0 + n ≤ limit - b.count
unfolding count_attempt
counted limit a b buckets e l = ground arith

passed-open :
    (key limit : ℕ) (attempts : List Attempt) (buckets : Table Bucket) (b : Bucket)
    → find key buckets ≡ some b
    → Within key limit b.reset_at attempts
    → passed key attempts buckets ≤ limit - b.count
unfolding passed count_attempt
passed-open key limit [] buckets b h w = omega arith
passed-open key limit (a ∷ attempts) buckets b h w = elim (Bool-cases (a.bucket_key == key)) [
  | inl own ↦
      let at_key : a.bucket_key ≡ key = (==_iff a.bucket_key key).0 own in
      let here : find a.bucket_key buckets ≡ some b =
        subst (λ k. find k buckets ≡ some b) (sym at_key) h in
      rw (own, if◌then◌else◌, assert_allowed-counts a buckets b here w.0)
        (counted limit a b buckets (w.1 at_key) (
          passed-open key limit attempts
            (update a.bucket_key (λ c. record c { count = c.count + 1 }) buckets)
            (record b { count = b.count + 1 })
            (subst
              (λ k.
                find k (update a.bucket_key (λ c. record c { count = c.count + 1 }) buckets)
                ≡ some (record b { count = b.count + 1 }))
              at_key (find-update_self a.bucket_key _ buckets b here))
            w.2))
  | inr other ↦
      let rest =
        passed-open key limit attempts (assert_allowed false a buckets).1 b
          (unfold assert_allowed in
            try_bucket-other a key (find a.bucket_key buckets) buckets b other h w.0)
          w.2 in
      rw (other, if◌then◌else◌) (omega (arith, rest))
]

-- Opening a window leaves a fresh bucket under the key.
find-open_window :
    (a : Attempt) (buckets : Table Bucket)
    → 0 < a.window_ms
    → find a.bucket_key (open_window a (find a.bucket_key buckets) buckets)
      ≡ some (record { count = 1; reset_at = a.now + a.window_ms })
unfolding open_window
find-open_window a buckets positive =
    find-prune a.now a.bucket_key _ (record { count = 1; reset_at = a.now + a.window_ms })
      (set_self (find a.bucket_key buckets) refl) (omega arith)
  where
    set_self :
        (o : Option Bucket)
        → find a.bucket_key buckets ≡ o
        → find a.bucket_key (
            set_bucket a.bucket_key
              (record { count = 1; reset_at = a.now + a.window_ms })
              o
              buckets)
          ≡ some (record { count = 1; reset_at = a.now + a.window_ms })
    set_self none e = unfold set_bucket in rw (find-create, ==_self a.bucket_key)
    set_self (some old) e = unfold set_bucket in find-update_self a.bucket_key _ buckets old e

-- Of an attempt that finds no open window of its key and the attempts that follow before the window
-- it opens ends, among any attempts on other keys, at most the limit pass, where all attempts on
-- the key have the same limit of at least 1.
pub passed-bounded :
    (a : Attempt) (attempts : List Attempt) (buckets : Table Bucket)
    → 0 < a.window_ms
    → 1 ≤ a.limit
    → ((b : Bucket) → find a.bucket_key buckets ≡ some b → b.reset_at ≤ a.now)
    → Within a.bucket_key a.limit (a.now + a.window_ms) attempts
    → passed a.bucket_key (a ∷ attempts) buckets ≤ a.limit
unfolding passed assert_allowed
passed-bounded a attempts buckets positive enough over w =
    rw (==_self a.bucket_key, if◌then◌else◌, opened (find a.bucket_key buckets) over)
      (let rest =
          passed-open a.bucket_key a.limit attempts
            (open_window a (find a.bucket_key buckets) buckets)
            (record { count = 1; reset_at = a.now + a.window_ms })
            (find-open_window a buckets positive) w in
        omega (arith, rest, enough))
  where
    opened :
        (o : Option Bucket)
        → ((b : Bucket) → o ≡ some b → b.reset_at ≤ a.now)
        → try_bucket a o buckets ≡ (ok tt, open_window a o buckets)
    opened none k = unfold try_bucket in refl
    opened (some b) k = unfold try_bucket in rw (late b.reset_at a.now (k b refl))
      where
        late : (m n : ℕ) → m ≤ n → leb m n ≡ true
        late m n l = ground arith
