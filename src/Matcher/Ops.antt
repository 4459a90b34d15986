-- ===== src/Matcher/Ops.antt =====
-- src/libbpfilter/matcher.c: the sizes of the payloads of each matcher and operator.
use bpfilter_study.Base.{ℕ, Option, none, some, ◌==◌, if◌then◌else◌}
use bpfilter_study.Matcher.{
  MatcherType, MatcherOp, op_eq, op_ne, op_any, op_all, op_in, op_range, meta_iface, meta_l3_proto,
  meta_l4_proto, meta_probability, meta_sport, meta_dport, meta_mark, ip4_saddr, ip4_snet,
  ip4_daddr, ip4_dnet, ip4_proto, ip6_saddr, ip6_snet, ip6_daddr, ip6_dnet, ip6_nexthdr, tcp_sport,
  tcp_dport, tcp_flags, udp_sport, udp_dport, icmp_type, icmp_code, icmpv6_type, icmpv6_code, set,
}

-- A row of the table: the sizes of the payloads of `eq`, `ne`, `in` and `range`; 0 is no entry.
abbrev row : ℕ → ℕ → ℕ → ℕ → MatcherOp → ℕ
row eq ne is range op_eq = eq
row eq ne is range op_ne = ne
row eq ne is range op_in = is
row eq ne is range op_range = range
row eq ne is range op_any = 0
row eq ne is range op_all = 0

abbrev flags_row : MatcherOp → ℕ
flags_row op_eq = 1
flags_row op_ne = 1
flags_row op_any = 1
flags_row op_all = 1
flags_row op_in = 0
flags_row op_range = 0

-- The field `ref_payload_size` of `_bf_matcher_metas[type].ops[op]`.
unfoldable pub ref_payload_size : MatcherType → MatcherOp → ℕ
ref_payload_size meta_iface = row 4 0 0 0
ref_payload_size meta_l3_proto = row 2 0 0 0
ref_payload_size meta_l4_proto = row 2 2 0 0
ref_payload_size meta_probability = row 1 0 0 0
ref_payload_size meta_sport = row 2 2 0 4
ref_payload_size meta_dport = row 2 2 0 4
ref_payload_size meta_mark = row 4 4 0 0
ref_payload_size ip4_saddr = row 4 4 4 0
ref_payload_size ip4_snet = row 8 8 8 0
ref_payload_size ip4_daddr = row 4 4 4 0
ref_payload_size ip4_dnet = row 8 8 8 0
ref_payload_size ip4_proto = row 1 1 1 0
ref_payload_size ip6_saddr = row 16 16 16 0
ref_payload_size ip6_snet = row 20 20 20 0
ref_payload_size ip6_daddr = row 16 16 16 0
ref_payload_size ip6_dnet = row 20 20 20 0
ref_payload_size ip6_nexthdr = row 1 1 1 0
ref_payload_size tcp_sport = row 2 2 2 4
ref_payload_size tcp_dport = row 2 2 2 4
ref_payload_size tcp_flags = flags_row
ref_payload_size udp_sport = row 2 2 2 4
ref_payload_size udp_dport = row 2 2 2 4
ref_payload_size icmp_type = row 1 1 1 0
ref_payload_size icmp_code = row 1 1 1 0
ref_payload_size icmpv6_type = row 1 1 1 0
ref_payload_size icmpv6_code = row 1 1 1 0
ref_payload_size set = row 0 0 0 0

-- `bf_matcher_get_ops()`: the size of the payload, if there is an entry.
unfoldable pub matcher_get_ops : MatcherType → MatcherOp → Option ℕ
unfolding ref_payload_size
matcher_get_ops type op =
    if ref_payload_size type op == 0 then none else some (ref_payload_size type op)
