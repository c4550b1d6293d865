-- ===== src/Utils/NodeId/RoundTrip.antt =====
-- A generated node id is read back as the number that its bytes spell.
use sprintframework.Common.{
  ℕ, zero, suc, ◌+◌, ◌*◌, ◌/◌, ◌%◌, ◌^◌, ◌<◌, ◌≡◌, ◌≢◌, sym, refl, ap, ◌∙◌, arith, some, [], ◌∷◌,
  ◌++◌,
}
use sprintframework.Common.{Bytes, codes, ok, All, length}
use sprintframework.Strings.{has_prefix}
use sprintframework.Utils.NodeId.{
  node_id_size, node_id_bits, hex_digit, digit_value, encode_hex, generate_node_id, scan_hex,
  in_bits, parse_uint, parse_node_id,
}

abbrev pub IsByte : ℕ → Type 0
IsByte b = b < 256

-- The number that bytes spell behind `n`, the first byte on top.
abbrev pub big_endian : Bytes → ℕ → ℕ
big_endian [] n = n
big_endian (b ∷ s) n = big_endian s (n * 256 + b)

digit_value-hex_digit : (n : ℕ) → n < 16 → digit_value (hex_digit n) ≡ some n
digit_value-hex_digit n h = ground arith

regroup : (b n : ℕ) → (n * 16 + b / 16) * 16 + b % 16 ≡ n * 256 + b
regroup b n = omega arith

scan_hex-encode_hex :
    (s : Bytes) (n : ℕ) → All IsByte s → scan_hex (encode_hex s) n ≡ some (big_endian s n)
unfolding scan_hex encode_hex
scan_hex-encode_hex [] n h = refl
scan_hex-encode_hex (b ∷ s) n (hb, h) =
    rw (digit_value-hex_digit (b / 16) (omega arith), scan_hex)
      (rw (digit_value-hex_digit (b % 16) (omega arith), scan_hex)
        (ap (scan_hex (encode_hex s)) (regroup b n) ∙ scan_hex-encode_hex s (n * 256 + b) h))

-- k * 256 ^ n
scale : ℕ → ℕ → ℕ
scale k zero = k
scale k (suc n) = scale (k * 256) n

big_endian-lt-scale :
    (s : Bytes) (n k : ℕ) → All IsByte s → n < k → big_endian s n < scale k (length s)
unfolding scale
big_endian-lt-scale [] n k h lt = lt
big_endian-lt-scale (b ∷ s) n k (hb, h) lt =
    big_endian-lt-scale s (n * 256 + b) (k * 256) h (omega arith)

big_endian_bound :
    (s : Bytes) → length s ≡ node_id_size → All IsByte s → big_endian s 0 < 2 ^ node_id_bits
unfolding scale
big_endian_bound s size bytes = rw size at (big_endian-lt-scale s 0 1 bytes (omega arith))

parse_uint-encode_hex :
    (s : Bytes) (n : ℕ)
    → s ≢ []
    → scan_hex (encode_hex s) 0 ≡ some n
    → n < 2 ^ node_id_bits
    → parse_uint (encode_hex s) ≡ some n
unfolding parse_uint encode_hex
parse_uint-encode_hex [] n ne e lt = absurd (ne refl)
parse_uint-encode_hex (b ∷ s) n ne e lt = rw (e, in_bits) (ground arith)

-- Whatever six bytes the random source gives, the id that is made of them is read back as the
-- number that they spell, which has 48 bits.
pub parse-generate_node_id :
    {E : Type 0} (blob : Bytes) {node_id : Bytes}
    → length blob ≡ node_id_size
    → All IsByte blob
    → generate_node_id {E = E} (ok blob) ≡ ok node_id
    → (parse_node_id node_id ≡ some (big_endian blob 0)) × (big_endian blob 0 < 2 ^ node_id_bits)
unfolding generate_node_id parse_node_id has_prefix
parse-generate_node_id blob {node_id} size bytes h =
    let same : codes "0x" ++ encode_hex blob ≡ node_id = ground arith in
    let bound = big_endian_bound blob size bytes in
    rw (sym same) (
      parse_uint-encode_hex blob (big_endian blob 0) (λ e. absurd (ground arith))
          (scan_hex-encode_hex blob 0 bytes) bound,
      bound,
    )

-- The empty text is no id.
pub ne_of_parsed : (hex : Bytes) (n : ℕ) → parse_node_id hex ≡ some n → hex ≢ []
unfolding parse_node_id parse_uint has_prefix
ne_of_parsed [] n e = ground arith
ne_of_parsed (c ∷ hex) n e = ground arith
