-- ===== src/Matcher/Metas.antt =====
-- src/libbpfilter/matcher.c: `_bf_matcher_metas`, where each matcher's data lies in the packet.
use bpfilter_study.Base.{ℕ, Option, none, some}
use bpfilter_study.Matcher.{
  MatcherType, meta_iface, meta_l3_proto, meta_l4_proto, meta_probability, meta_sport, meta_dport,
  meta_mark, ip4_saddr, ip4_snet, ip4_daddr, ip4_dnet, ip4_proto, ip6_saddr, ip6_snet, ip6_daddr,
  ip6_dnet, ip6_nexthdr, tcp_sport, tcp_dport, tcp_flags, udp_sport, udp_dport, icmp_type,
  icmp_code, icmpv6_type, icmpv6_code, set,
}

-- enum bf_matcher_layer
pub data Layer : Type 0 where
  no_layer layer_3 layer_4 : Layer

-- struct bf_matcher_meta, without the operators
pub record MatcherMeta : Type 0 where
  pub layer : Layer
  pub hdr_id : ℕ
  pub hdr_payload_size : ℕ
  pub hdr_payload_offset : ℕ

abbrev in_layer : Layer → ℕ → ℕ → ℕ → Option MatcherMeta
in_layer layer id size offset =
    some
      (record { layer = layer; hdr_id = id; hdr_payload_size = size; hdr_payload_offset = offset })

abbrev free_of_layers : Option MatcherMeta
free_of_layers = in_layer no_layer 0 0 0

-- `bf_matcher_get_meta()`; BF_MATCHER_SET has no entry.
unfoldable pub matcher_get_meta : MatcherType → Option MatcherMeta
matcher_get_meta meta_iface = free_of_layers
matcher_get_meta meta_l3_proto = free_of_layers
matcher_get_meta meta_l4_proto = free_of_layers
matcher_get_meta meta_probability = free_of_layers
matcher_get_meta meta_sport = free_of_layers
matcher_get_meta meta_dport = free_of_layers
matcher_get_meta meta_mark = free_of_layers
matcher_get_meta ip4_saddr = in_layer layer_3 0x0800 4 12
matcher_get_meta ip4_snet = in_layer layer_3 0x0800 4 12
matcher_get_meta ip4_daddr = in_layer layer_3 0x0800 4 16
matcher_get_meta ip4_dnet = in_layer layer_3 0x0800 4 16
matcher_get_meta ip4_proto = in_layer layer_3 0x0800 1 9
matcher_get_meta ip6_saddr = in_layer layer_3 0x86dd 16 8
matcher_get_meta ip6_snet = in_layer layer_3 0x86dd 16 8
matcher_get_meta ip6_daddr = in_layer layer_3 0x86dd 16 24
matcher_get_meta ip6_dnet = in_layer layer_3 0x86dd 16 24
matcher_get_meta ip6_nexthdr = in_layer layer_3 0x86dd 1 6
matcher_get_meta tcp_sport = in_layer layer_4 6 2 0
matcher_get_meta tcp_dport = in_layer layer_4 6 2 2
matcher_get_meta tcp_flags = in_layer layer_4 6 1 13
matcher_get_meta udp_sport = in_layer layer_4 17 2 0
matcher_get_meta udp_dport = in_layer layer_4 17 2 2
matcher_get_meta icmp_type = in_layer layer_4 1 1 0
matcher_get_meta icmp_code = in_layer layer_4 1 1 1
matcher_get_meta icmpv6_type = in_layer layer_4 58 1 0
matcher_get_meta icmpv6_code = in_layer layer_4 58 1 1
matcher_get_meta set = none
