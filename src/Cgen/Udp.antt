-- ===== src/Cgen/Udp.antt =====
-- src/bpfilter/cgen/matcher/udp.c
pub mod Correct
use bpfilter_study.Base.{ℕ}
use bpfilter_study.Matcher.{Matcher, MatcherType, udp_sport, udp_dport}
use bpfilter_study.Program.{M, fail, ◌>>◌, einval, program_emit}
use bpfilter_study.Cgen.Compare.{load_l4_header, compare_port}
use bpfilter_study.Insn.{ldx_mem, half}

-- offsetof(struct udphdr, source) or offsetof(struct udphdr, dest)
abbrev pub udp_port_offset : MatcherType → ℕ
udp_port_offset udp_sport = 0
udp_port_offset _ = 2

unfoldable pub matcher_generate_udp_port : Matcher → M (Unit {0})
matcher_generate_udp_port m = do
  program_emit (ldx_mem half 1 6 (udp_port_offset m.type))
  compare_port m.op m

abbrev pub udp_by_type : MatcherType → Matcher → M (Unit {0})
udp_by_type udp_sport m = matcher_generate_udp_port m
udp_by_type udp_dport m = matcher_generate_udp_port m
udp_by_type _ m = fail einval

unfoldable pub matcher_generate_udp : Matcher → M (Unit {0})
matcher_generate_udp m = do load_l4_header 17; udp_by_type m.type m
