-- ===== src/Cgen/Tcp.antt =====
-- src/bpfilter/cgen/matcher/tcp.c
pub mod Correct
use bpfilter_study.Base.{ℕ}
use bpfilter_study.Program.{M, emit_fixup_jmp_next_rule, fail, program_emit, ◌>>◌, einval}
use bpfilter_study.Matcher.{
  Matcher, MatcherOp, MatcherType, tcp_sport, tcp_dport, payload_u8, tcp_flags, op_eq, op_ne,
  op_any, op_all,
}
use bpfilter_study.Insn.{alu32_imm_insn, jmp_imm_insn, ldx_mem, alu_and, byte, half, jne, jeq}
use bpfilter_study.Cgen.Compare.{load_l4_header, compare_port}

-- offsetof(struct tcphdr, source) or offsetof(struct tcphdr, dest)
abbrev pub tcp_port_offset : MatcherType → ℕ
tcp_port_offset tcp_sport = 0
tcp_port_offset _ = 2

unfoldable pub matcher_generate_tcp_port : Matcher → M (Unit {0})
matcher_generate_tcp_port m = do
  program_emit (ldx_mem half 1 6 (tcp_port_offset m.type))
  compare_port m.op m

abbrev pub and_flags : ℕ → M (Unit {0})
and_flags flags = program_emit (alu32_imm_insn alu_and 1 flags)

-- `switch (op)` of the flags
abbrev pub compare_flags : MatcherOp → ℕ → M (Unit {0})
compare_flags op_eq flags = emit_fixup_jmp_next_rule (jmp_imm_insn jne 1 flags 0)
compare_flags op_ne flags = emit_fixup_jmp_next_rule (jmp_imm_insn jeq 1 flags 0)
compare_flags op_any flags = do and_flags flags; emit_fixup_jmp_next_rule (jmp_imm_insn jeq 1 0 0)
compare_flags op_all flags = do
  and_flags flags
  emit_fixup_jmp_next_rule (jmp_imm_insn jne 1 flags 0)
compare_flags _ flags = fail einval

unfoldable pub matcher_generate_tcp_flags : Matcher → M (Unit {0})
matcher_generate_tcp_flags m = do
  program_emit (ldx_mem byte 1 6 13)
  compare_flags m.op (payload_u8 m)

abbrev pub tcp_by_type : MatcherType → Matcher → M (Unit {0})
tcp_by_type tcp_sport m = matcher_generate_tcp_port m
tcp_by_type tcp_dport m = matcher_generate_tcp_port m
tcp_by_type tcp_flags m = matcher_generate_tcp_flags m
tcp_by_type _ m = fail einval

unfoldable pub matcher_generate_tcp : Matcher → M (Unit {0})
matcher_generate_tcp m = do load_l4_header 6; tcp_by_type m.type m
