-- ===== src/Cgen/Icmp.antt =====
-- src/bpfilter/cgen/matcher/icmp.c
pub mod Correct
use bpfilter_study.Base.{ℕ}
use bpfilter_study.Matcher.{
  Matcher, MatcherType, icmp_type, icmpv6_type, icmp_code, icmpv6_code, payload_u8,
}
use bpfilter_study.Program.{M, fail, ◌>>◌, einval, program_emit}
use bpfilter_study.Cgen.Compare.{load_l4_header, compare_value}
use bpfilter_study.Insn.{ldx_mem, byte}

-- offsetof(struct icmphdr, type) or offsetof(struct icmphdr, code); the same in struct icmp6hdr
abbrev pub icmp4_offset : MatcherType → ℕ
icmp4_offset icmp_type = 0
icmp4_offset _ = 1

abbrev pub icmp6_offset : MatcherType → ℕ
icmp6_offset icmpv6_type = 0
icmp6_offset _ = 1

unfoldable pub matcher_generate_icmp_fields : Matcher → ℕ → M (Unit {0})
matcher_generate_icmp_fields m offset = do
  program_emit (ldx_mem byte 1 6 offset)
  compare_value m.op (payload_u8 m)

unfoldable pub matcher_generate_icmp6_fields : Matcher → M (Unit {0})
matcher_generate_icmp6_fields m = do
  load_l4_header 58
  matcher_generate_icmp_fields m (icmp6_offset m.type)

unfoldable pub matcher_generate_icmp4_fields : Matcher → M (Unit {0})
matcher_generate_icmp4_fields m = do
  load_l4_header 1
  matcher_generate_icmp_fields m (icmp4_offset m.type)

abbrev pub icmp_by_type : MatcherType → Matcher → M (Unit {0})
icmp_by_type icmp_type m = matcher_generate_icmp4_fields m
icmp_by_type icmp_code m = matcher_generate_icmp4_fields m
icmp_by_type icmpv6_type m = matcher_generate_icmp6_fields m
icmp_by_type icmpv6_code m = matcher_generate_icmp6_fields m
icmp_by_type _ m = fail einval

unfoldable pub matcher_generate_icmp : Matcher → M (Unit {0})
matcher_generate_icmp m = icmp_by_type m.type m
