-- ===== src/Matcher.antt =====
-- src/libbpfilter/matcher.c and include/bpfilter/matcher.h: matchers, their types and operators.
-- The payload is the list of the bytes that `bf_matcher_payload()` points to; a read behind its
-- end, which is undefined in C, gives 0.
pub mod Metas
pub mod Ops
use bpfilter_study.Base.{
  ℕ, zero, suc, ◌+◌, ◌*◌, ◌%◌, ◌^◌, ◌<◌, Bool, true, false, List, [], ◌∷◌, get_or, little_endian,
  arith,
}

-- enum bf_matcher_type
pub data MatcherType : Type 0 where
  meta_iface meta_l3_proto meta_l4_proto meta_probability meta_sport meta_dport meta_mark :
      MatcherType
  ip4_saddr ip4_snet ip4_daddr ip4_dnet ip4_proto : MatcherType
  ip6_saddr ip6_snet ip6_daddr ip6_dnet ip6_nexthdr : MatcherType
  tcp_sport tcp_dport tcp_flags udp_sport udp_dport : MatcherType
  icmp_type icmp_code icmpv6_type icmpv6_code set : MatcherType

-- enum bf_matcher_op
pub data MatcherOp : Type 0 where
  op_eq op_ne op_any op_all op_in op_range : MatcherOp

-- struct bf_matcher
pub record Matcher : Type 0 where
  pub type : MatcherType
  pub op : MatcherOp
  pub payload : List ℕ

-- Reads of a little-endian host through a payload pointer.
abbrev pub bytes_from : List ℕ → ℕ → ℕ → List ℕ
bytes_from p i zero = []
bytes_from p i (suc n) = get_or p i 0 % 256 ∷ bytes_from p (i + 1) n

abbrev pub payload_u8 : Matcher → ℕ
payload_u8 m = get_or m.payload 0 0 % 256

-- `((uint16_t *)payload)[i]`
abbrev pub payload_u16 : Matcher → ℕ → ℕ
payload_u16 m i = little_endian (bytes_from m.payload (i + i) 2)

-- `((uint32_t *)payload)[i]`
abbrev pub payload_u32 : Matcher → ℕ → ℕ
payload_u32 m i = little_endian (bytes_from m.payload (i + i + i + i) 4)

pub payload_u8-lt : (m : Matcher) → payload_u8 m < 2 ^ 8
payload_u8-lt m = omega arith

pub payload_u16-lt : (m : Matcher) (i : ℕ) → payload_u16 m i < 2 ^ 16
payload_u16-lt m i = omega arith

pub payload_u32-lt : (m : Matcher) (i : ℕ) → payload_u32 m i < 2 ^ 32
payload_u32-lt m i = omega arith

-- `op == BF_MATCHER_EQ`
abbrev pub is_eq : MatcherOp → Bool
is_eq op_eq = true
is_eq _ = false

abbrev pub is_ne : MatcherOp → Bool
is_ne op_ne = true
is_ne _ = false
