-- ===== src/Cgen/Ip4.antt =====
-- src/bpfilter/cgen/matcher/ip4.c
pub mod Mask
pub mod Prefix
pub mod Code
pub mod Correct
use bpfilter_study.Base.{
  ℕ, zero, suc, ◌+◌, ◌-◌, ◌*◌, ◌/◌, ◌%◌, ◌^◌, List, [], ◌∷◌, ◌==◌, if◌then◌else◌, modify,
  little_endian, htobe16,
}
use bpfilter_study.Insn.{
  word, dword, byte, alu_and, jne, ldx_mem, mov32_imm, alu32_reg_insn, jmp_imm_insn, jmp_reg_insn,
}
use bpfilter_study.Matcher.{
  MatcherType, ip4_saddr, ip4_daddr, ip4_proto, ip4_snet, ip4_dnet, Matcher, payload_u8,
  payload_u32,
}
use bpfilter_study.Runtime.{prog_ctx_off, l3_hdr}
use bpfilter_study.Program.{
  M, einval, fail, skip, ◌>>=◌, ◌>>◌, program_emit, emit_fixup_jmp_next_rule,
}
use bpfilter_study.Cgen.Implements.{mismatch_op}

-- offsetof(struct iphdr, saddr) or offsetof(struct iphdr, daddr)
abbrev pub ip4_addr_offset : MatcherType → ℕ
ip4_addr_offset ip4_saddr = 12
ip4_addr_offset _ = 16

unfoldable pub matcher_generate_ip4_addr : Matcher → M (Unit {0})
matcher_generate_ip4_addr m = do
  program_emit (ldx_mem word 1 6 (ip4_addr_offset m.type))
  program_emit (mov32_imm 2 (payload_u32 m 0))
  emit_fixup_jmp_next_rule (jmp_reg_insn (mismatch_op m.op) 1 2 0)

unfoldable pub matcher_generate_ip4_proto : Matcher → M (Unit {0})
matcher_generate_ip4_proto m = do
  program_emit (ldx_mem byte 1 6 9)
  emit_fixup_jmp_next_rule (jmp_imm_insn (mismatch_op m.op) 1 (payload_u8 m) 0)

-- `memset(mask, 0x00, size); memset(mask, 0xff, n)`
abbrev pub leading_ones : ℕ → ℕ → List ℕ
leading_ones zero n = []
leading_ones (suc size) zero = 0 ∷ leading_ones size zero
leading_ones (suc size) (suc n) = 255 ∷ leading_ones size n

-- `0xff << (8 - prefixlen % 8) & 0xff`
abbrev pub partial_byte : ℕ → ℕ
partial_byte prefixlen = 255 * 2 ^ (8 - prefixlen % 8) % 256

-- The body that `_bf_ip4_prefix_to_mask()` and `_bf_ip6_prefix_to_mask()` have in common. A write
-- behind the end of the mask, which is undefined in C, is left out.
unfoldable pub prefix_to_mask : ℕ → ℕ → List ℕ
prefix_to_mask size prefixlen =
    let mask = leading_ones size (prefixlen / 8) in
    if prefixlen % 8 == 0 then mask else modify mask (prefixlen / 8) (λ _. partial_byte prefixlen)

unfoldable pub ip4_prefix_to_mask : ℕ → List ℕ
ip4_prefix_to_mask prefixlen = prefix_to_mask 4 prefixlen

abbrev pub ip4_net_offset : MatcherType → ℕ
ip4_net_offset ip4_snet = 12
ip4_net_offset _ = 16

abbrev pub ip4_mask : Matcher → ℕ
ip4_mask m = little_endian (ip4_prefix_to_mask (payload_u32 m 0))

unfoldable pub apply_ip4_mask : ℕ → M (Unit {0})
apply_ip4_mask mask = do
  program_emit (mov32_imm 3 mask)
  program_emit (alu32_reg_insn alu_and 1 3)
  program_emit (alu32_reg_insn alu_and 2 3)

unfoldable pub matcher_generate_ip4_net : Matcher → M (Unit {0})
matcher_generate_ip4_net m = do
  program_emit (ldx_mem word 1 6 (ip4_net_offset m.type))
  program_emit (mov32_imm 2 (payload_u32 m 1))
  if ip4_mask m == 0xffff_ffff then skip else apply_ip4_mask (ip4_mask m)
  emit_fixup_jmp_next_rule (jmp_reg_insn (mismatch_op m.op) 1 2 0)

abbrev pub ip4_by_type : MatcherType → Matcher → M (Unit {0})
ip4_by_type ip4_saddr m = matcher_generate_ip4_addr m
ip4_by_type ip4_daddr m = matcher_generate_ip4_addr m
ip4_by_type ip4_proto m = matcher_generate_ip4_proto m
ip4_by_type ip4_snet m = matcher_generate_ip4_net m
ip4_by_type ip4_dnet m = matcher_generate_ip4_net m
ip4_by_type _ m = fail einval

unfoldable pub matcher_generate_ip4 : Matcher → M (Unit {0})
matcher_generate_ip4 m = do
  emit_fixup_jmp_next_rule (jmp_imm_insn jne 7 (htobe16 0x0800) 0)
  program_emit (ldx_mem dword 6 10 (prog_ctx_off l3_hdr))
  ip4_by_type m.type m
