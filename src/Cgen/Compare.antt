-- ===== src/Cgen/Compare.antt =====
-- src/bpfilter/cgen/matcher/: what the generators of several matchers have in common. The value
-- taken from the packet is in r1.
pub mod Correct
use bpfilter_study.Base.{ℕ}
use bpfilter_study.Program.{M, emit_fixup_jmp_next_rule, fail, einval, ◌>>◌, program_emit}
use bpfilter_study.Matcher.{Matcher, MatcherOp, payload_u16, op_eq, op_ne, op_range}
use bpfilter_study.Insn.{jmp_imm_insn, jne, jeq, bswap16, ldx_mem, dword, jlt, jgt}
use bpfilter_study.Runtime.{prog_ctx_off, l4_hdr}

-- `switch (op)` with BF_MATCHER_EQ and BF_MATCHER_NE only
abbrev pub compare_value : MatcherOp → ℕ → M (Unit {0})
compare_value op_eq value = emit_fixup_jmp_next_rule (jmp_imm_insn jne 1 value 0)
compare_value op_ne value = emit_fixup_jmp_next_rule (jmp_imm_insn jeq 1 value 0)
compare_value _ value = fail einval

abbrev pub port_range : Matcher → M (Unit {0})
port_range m = do
  program_emit (bswap16 1)
  emit_fixup_jmp_next_rule (jmp_imm_insn jlt 1 (payload_u16 m 0) 0)
  emit_fixup_jmp_next_rule (jmp_imm_insn jgt 1 (payload_u16 m 1) 0)

-- `switch (op)` of the ports
abbrev pub compare_port : MatcherOp → Matcher → M (Unit {0})
compare_port op_eq m = emit_fixup_jmp_next_rule (jmp_imm_insn jne 1 (payload_u16 m 0) 0)
compare_port op_ne m = emit_fixup_jmp_next_rule (jmp_imm_insn jeq 1 (payload_u16 m 0) 0)
compare_port op_range m = port_range m
compare_port _ m = fail einval

-- The guard of a matcher on an L4 header, and the load of the header's address into r6.
abbrev pub load_l4_header : ℕ → M (Unit {0})
load_l4_header proto = do
  emit_fixup_jmp_next_rule (jmp_imm_insn jne 8 proto 0)
  program_emit (ldx_mem dword 6 10 (prog_ctx_off l4_hdr))
