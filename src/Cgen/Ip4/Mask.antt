-- ===== src/Cgen/Ip4/Mask.antt =====
-- The mask of a prefix length.
use bpfilter_study.Cgen.Ip4.{
  ip4_prefix_to_mask, prefix_to_mask, ip4_mask, leading_ones, partial_byte,
}
use bpfilter_study.Base.{
  ℕ, zero, ◌<◌, little_endian, suc, ◌*◌, Bool-cases, modify, ◌%◌, ◌^◌, arith, ◌==◌, inl, ◌/◌, inr,
}
use bpfilter_study.Matcher.{Matcher, payload_u32}

-- 256 ^ n
abbrev pub bytes_bound : ℕ → ℕ
bytes_bound zero = 1
bytes_bound (suc n) = 256 * bytes_bound n

leading_ones-lt : (size n : ℕ) → little_endian (leading_ones size n) < bytes_bound size
leading_ones-lt zero n = omega arith
leading_ones-lt (suc size) zero = omega (arith, leading_ones-lt size zero)
leading_ones-lt (suc size) (suc n) = omega (arith, leading_ones-lt size n)

partial_mask-lt :
    (size n b : ℕ)
    → b < 256
    → little_endian (modify (leading_ones size n) n (λ _. b)) < bytes_bound size
partial_mask-lt zero n b h = omega arith
partial_mask-lt (suc size) zero b h = omega (arith, leading_ones-lt size zero)
partial_mask-lt (suc size) (suc n) b h = omega (arith, partial_mask-lt size n b h)

pub prefix_to_mask-lt :
    (size prefixlen : ℕ) → little_endian (prefix_to_mask size prefixlen) < bytes_bound size
unfolding prefix_to_mask
prefix_to_mask-lt size prefixlen = elim (Bool-cases (prefixlen % 8 == 0)) [
  | inl e ↦ rw e (leading_ones-lt size (prefixlen / 8))
  | inr e ↦ rw e (partial_mask-lt size (prefixlen / 8) (partial_byte prefixlen) (omega arith))
]

pub ip4_mask-lt : (m : Matcher) → ip4_mask m < 2 ^ 32
unfolding ip4_prefix_to_mask
ip4_mask-lt m = prefix_to_mask-lt 4 (payload_u32 m 0)
