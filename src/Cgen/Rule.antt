-- ===== src/Cgen/Rule.antt =====
-- src/bpfilter/cgen/program.c: the code of a rule, and the whole program.
pub mod Actions
pub mod Chain
pub mod Correct
pub mod Effects
pub mod Matchers
pub mod Meaning
use bpfilter_study.Base.{ℕ, List, Option, if◌then◌else◌, some, ◌==◌, ◌∷◌, [], none}
use bpfilter_study.Program.{
  M, skip, ◌>>=◌, ◌>>◌, fail, program_emit, enotsup, ok, emit_fixup_elfstub, emit_load_fd_fixup,
  elfstub_log, elfstub_update_counters,
}
use bpfilter_study.Matcher.{
  MatcherType, Matcher, meta_iface, meta_l3_proto, meta_l4_proto, meta_probability, meta_sport,
  meta_dport, meta_mark, ip4_saddr, ip4_snet, ip4_daddr, ip4_dnet, ip4_proto, ip6_saddr, ip6_snet,
  ip6_daddr, ip6_dnet, ip6_nexthdr, tcp_sport, tcp_dport, tcp_flags, udp_sport, udp_dport,
  icmp_type, icmp_code, icmpv6_type, icmpv6_code, set,
}
use bpfilter_study.Chain.{
  Rule, Verdict, accept, rule_mark_is_set, drop, continue, rule_mark_get, Flavor,
}
use bpfilter_study.Cgen.Meta.{matcher_generate_meta}
use bpfilter_study.Cgen.Flavor.{ops_get_verdict, set_mark_op}
use bpfilter_study.Cgen.Resolve.{program_fixup}
use bpfilter_study.Fixup.{jmp_next_rule, counters_map_fd}
use bpfilter_study.Cgen.Ip4.{matcher_generate_ip4}
use bpfilter_study.Insn.{mov64_imm, mov64_reg, alu64_imm_insn, exit_insn, alu_add, mov32_imm}
use bpfilter_study.Cgen.Ip6.{matcher_generate_ip6}
use bpfilter_study.Cgen.Tcp.{matcher_generate_tcp}
use bpfilter_study.Cgen.Udp.{matcher_generate_udp}
use bpfilter_study.Runtime.{prog_ctx_imm, arg}
use bpfilter_study.Cgen.Icmp.{matcher_generate_icmp}
use bpfilter_study.Cgen.Set.{matcher_generate_set}

-- The switch of `_bf_program_generate_rule()` on the matcher's type.
abbrev pub generate_matcher : MatcherType → Matcher → M (Unit {0})
generate_matcher meta_iface m = matcher_generate_meta m
generate_matcher meta_l3_proto m = matcher_generate_meta m
generate_matcher meta_l4_proto m = matcher_generate_meta m
generate_matcher meta_probability m = matcher_generate_meta m
generate_matcher meta_sport m = matcher_generate_meta m
generate_matcher meta_dport m = matcher_generate_meta m
generate_matcher meta_mark m = matcher_generate_meta m
generate_matcher ip4_saddr m = matcher_generate_ip4 m
generate_matcher ip4_snet m = matcher_generate_ip4 m
generate_matcher ip4_daddr m = matcher_generate_ip4 m
generate_matcher ip4_dnet m = matcher_generate_ip4 m
generate_matcher ip4_proto m = matcher_generate_ip4 m
generate_matcher ip6_saddr m = matcher_generate_ip6 m
generate_matcher ip6_snet m = matcher_generate_ip6 m
generate_matcher ip6_daddr m = matcher_generate_ip6 m
generate_matcher ip6_dnet m = matcher_generate_ip6 m
generate_matcher ip6_nexthdr m = matcher_generate_ip6 m
generate_matcher tcp_sport m = matcher_generate_tcp m
generate_matcher tcp_dport m = matcher_generate_tcp m
generate_matcher tcp_flags m = matcher_generate_tcp m
generate_matcher udp_sport m = matcher_generate_udp m
generate_matcher udp_dport m = matcher_generate_udp m
generate_matcher icmp_type m = matcher_generate_icmp m
generate_matcher icmp_code m = matcher_generate_icmp m
generate_matcher icmpv6_type m = matcher_generate_icmp m
generate_matcher icmpv6_code m = matcher_generate_icmp m
generate_matcher set m = matcher_generate_set m

unfoldable pub generate_matchers : List Matcher → M (Unit {0})
generate_matchers [] = skip
generate_matchers (m ∷ ms) = generate_matcher m.type m >> generate_matchers ms

abbrev pub ops_set_mark : Option (ℕ → M (Unit {0})) → ℕ → M (Unit {0})
ops_set_mark (some op) mark = op mark
ops_set_mark none mark = fail enotsup

abbrev pub mark_for : Flavor → Rule → M (Unit {0})
mark_for fl r = if rule_mark_is_set r then ops_set_mark (set_mark_op fl) (rule_mark_get r) else skip

abbrev pub generate_mark : Rule → M (Unit {0})
generate_mark r env p = mark_for p.flavor r env p

abbrev pub log_code : Rule → M (Unit {0})
log_code r = do
  program_emit (mov64_reg 1 10)
  program_emit (alu64_imm_insn alu_add 1 (prog_ctx_imm arg))
  program_emit (mov64_imm 2 r.index)
  program_emit (mov64_imm 3 r.log)
  program_emit (mov64_reg 4 7)
  program_emit (mov64_reg 5 8)
  emit_fixup_elfstub elfstub_log

-- The update of a counter, by its index.
abbrev pub counter_code : ℕ → M (Unit {0})
counter_code index = do
  program_emit (mov64_reg 1 10)
  program_emit (alu64_imm_insn alu_add 1 (prog_ctx_imm arg))
  emit_load_fd_fixup counters_map_fd 2 0
  program_emit (mov32_imm 3 index)
  emit_fixup_elfstub elfstub_update_counters

abbrev pub exit_with : Verdict → M (Unit {0})
exit_with v = do code ← ops_get_verdict v; program_emit (mov64_imm 0 code); program_emit exit_insn

abbrev pub verdict_code : Verdict → M (Unit {0})
verdict_code accept = exit_with accept
verdict_code drop = exit_with drop
verdict_code continue = skip

-- What follows the matchers.
unfoldable pub generate_actions : Rule → M (Unit {0})
generate_actions r = do
  generate_mark r
  if r.log == 0 then skip else log_code r
  if r.counters then counter_code r.index else skip
  verdict_code r.verdict

unfoldable pub program_generate_rule : Rule → M (Unit {0})
program_generate_rule r = do
  generate_matchers r.matchers
  generate_actions r
  program_fixup jmp_next_rule

unfoldable pub program_generate_rules : List Rule → M (Unit {0})
program_generate_rules [] = skip
program_generate_rules (r ∷ rs) = program_generate_rule r >> program_generate_rules rs
