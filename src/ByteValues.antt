-- ===== src/ByteValues.antt =====
-- apps/api/src/common/utils/byte-values.ts: byte counts between JSON numbers and big integers.
mod Tests
use liminalis.Common.{
  subst, inl, inr, Bool-cases, ℕ, ◌+◌, ◌≡◌, refl, Bool, true, false, Option, none, some, List, [],
  ◌∷◌, leb, ltb, arith, if◌then◌else◌,
}
use liminalis.Common.Int.{ℤ, pos, negsuc}
use liminalis.Common.Exec.{Error, Result, ok, err, bad_request, database, and_then}
use liminalis.Schema.{
  Num, nan, int, Reason, byte_value_not_safe, byte_value_too_large, value_not_storable,
}

-- A JavaScript value that stands for a number of bytes.
pub data Bytes : Type 0 where
  null undefined : Bytes
  number : Num → Bytes
  bigint : ℤ → Bytes

-- `MAX_SAFE_JSON_BYTES`
abbrev pub max_safe_json_bytes : ℕ
max_safe_json_bytes = 9007199254740991

-- `BigInt` raises an error at what is no integer.
unfoldable pub bytes_to_bigint : Bytes → Result Reason (Option ℤ)
bytes_to_bigint null = ok none
bytes_to_bigint undefined = ok none
bytes_to_bigint (number nan) = err (database value_not_storable)
bytes_to_bigint (number (int z)) = ok (some z)
bytes_to_bigint (bigint z) = ok (some z)

-- A number of a request, which is safe and not negative.
unfoldable pub input_bytes_to_bigint : Bytes → Result Reason (Option ℤ)
input_bytes_to_bigint null = ok none
input_bytes_to_bigint undefined = ok none
input_bytes_to_bigint (number (int (pos n))) =
    if leb n max_safe_json_bytes then ok (some (pos n)) else err (bad_request byte_value_not_safe)
input_bytes_to_bigint _ = err (bad_request byte_value_not_safe)

-- `Number` of a big integer, exact where it is safe; `round` is what it is elsewhere.
abbrev pub number_of : (ℤ → ℤ) → ℤ → ℤ
number_of round (pos n) = if leb n max_safe_json_bytes then pos n else round (pos n)
number_of round (negsuc n) = if ltb n max_safe_json_bytes then negsuc n else round (negsuc n)

abbrev pub exceeds_safe : ℤ → Bool
exceeds_safe (pos n) = ltb max_safe_json_bytes n
exceeds_safe (negsuc n) = false

abbrev pub json_number : (ℤ → ℤ) → Option ℤ → Result Reason Bytes
json_number round none = ok (number (int (pos 0)))
json_number round (some z) =
    if exceeds_safe z
    then err (bad_request byte_value_too_large)
    else ok (number (int (number_of round z)))

unfoldable pub bytes_to_json_number : (ℤ → ℤ) → Bytes → Result Reason Bytes
unfolding bytes_to_bigint
bytes_to_json_number round null = ok null
bytes_to_json_number round undefined = ok undefined
bytes_to_json_number round (number n) = and_then (bytes_to_bigint (number n)) (json_number round)
bytes_to_json_number round (bigint z) = and_then (bytes_to_bigint (bigint z)) (json_number round)

-- A number of bytes that a request gives and that is accepted comes back in an answer as the same
-- number.
pub input_bytes_to_bigint-bytes_to_json_number :
    (round : ℤ → ℤ) (value : Bytes) (z : ℤ)
    → input_bytes_to_bigint value ≡ ok (some z)
    → bytes_to_json_number round (bigint z) ≡ ok value
unfolding input_bytes_to_bigint bytes_to_json_number bytes_to_bigint
input_bytes_to_bigint-bytes_to_json_number round null z h = ground arith
input_bytes_to_bigint-bytes_to_json_number round undefined z h = ground arith
input_bytes_to_bigint-bytes_to_json_number round (bigint x) z h = ground arith
input_bytes_to_bigint-bytes_to_json_number round (number nan) z h = ground arith
input_bytes_to_bigint-bytes_to_json_number round (number (int (negsuc n))) z h = ground arith
input_bytes_to_bigint-bytes_to_json_number round (number (int (pos n))) z h =
    elim (Bool-cases (leb n max_safe_json_bytes)) [
      | inl safe ↦
          subst (λ x. bytes_to_json_number round (bigint x) ≡ ok (number (int (pos n))))
            (same (rw (safe, if◌then◌else◌) at h)) (safe_number n safe)
      | inr large ↦ absurd (refused (rw (large, if◌then◌else◌) at h))
    ]
  where
    same : {a b : ℤ} → ◌≡◌ {A = Result Reason (Option ℤ)} (ok (some a)) (ok (some b)) → a ≡ b
    same p = cc

    refused :
        {e : Error Reason} {a : Option ℤ} → ◌≡◌ {A = Result Reason (Option ℤ)} (err e) (ok a) → ⊥
    refused p = cc

    safe_number :
        (m : ℕ)
        → leb m max_safe_json_bytes ≡ true
        → bytes_to_json_number round (bigint (pos m)) ≡ ok (number (int (pos m)))
    safe_number m e = rw (e, not_above m e)
      where
        not_above : (k : ℕ) → leb k max_safe_json_bytes ≡ true → ltb max_safe_json_bytes k ≡ false
        not_above k d = ground arith
