-- ===== src/ByteValues/Tests.antt =====
-- The theorem on byte values at a size.
use liminalis.Common.{◌≡◌, refl}
use liminalis.Common.Int.{pos}
use liminalis.Common.Exec.{ok}
use liminalis.Schema.{int}
use liminalis.ByteValues.{
  number, bigint, input_bytes_to_bigint, bytes_to_json_number,
  input_bytes_to_bigint-bytes_to_json_number,
}

input_bytes_to_bigint-bytes_to_json_number_example :
    bytes_to_json_number (λ z. z) (bigint (pos 4096)) ≡ ok (number (int (pos 4096)))
unfolding input_bytes_to_bigint
input_bytes_to_bigint-bytes_to_json_number_example =
    input_bytes_to_bigint-bytes_to_json_number (λ z. z) (number (int (pos 4096))) (pos 4096) refl
