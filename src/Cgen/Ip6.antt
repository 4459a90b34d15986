-- ===== src/Cgen/Ip6.antt =====
-- src/bpfilter/cgen/matcher/ip6.c
pub mod Correct
use bpfilter_study.Base.{
  ◌∷◌, ℕ, List, Option, Bool, little_endian, if◌then◌else◌, true, false, some, ◌+◌, get_or, htobe16,
  none, ◌==◌, bit_and, [],
}
use bpfilter_study.Matcher.{
  Matcher, MatcherOp, MatcherType, bytes_from, ip6_saddr, ip6_snet, payload_u32, payload_u8,
  ip6_daddr, op_eq, ip6_dnet, op_ne, ip6_nexthdr, is_eq,
}
use bpfilter_study.Program.{
  M, fail, ◌>>◌, einval, emit_fixup_jmp_next_rule, program_emit, ◌>>=◌, jmpctx_get, jmpctx_cleanup,
  skip,
}
use bpfilter_study.Cgen.Ip4.{prefix_to_mask}
use bpfilter_study.Insn.{
  alu64_reg_insn, jmp_imm_insn, jmp_reg_insn, ldx_mem, mov32_imm, alu_and, dword, jne,
  alu64_imm_insn, jmp_a_insn, alu_lsh, alu_or, jeq,
}
use bpfilter_study.Cgen.Implements.{mismatch_op}
use bpfilter_study.Runtime.{prog_ctx_off, ipv6_eh, l3_hdr}

-- offsetof(struct ipv6hdr, saddr) or offsetof(struct ipv6hdr, daddr)
abbrev pub ip6_addr_offset : MatcherType → ℕ
ip6_addr_offset ip6_saddr = 8
ip6_addr_offset _ = 24

abbrev pub ip6_net_offset : MatcherType → ℕ
ip6_net_offset ip6_snet = 8
ip6_net_offset _ = 24

-- `_bf_make32(b[i + 3], b[i + 2], b[i + 1], b[i])`
abbrev pub make32 : List ℕ → ℕ → ℕ
make32 b i = little_endian (bytes_from b i 4)

-- Eight bytes from the index `i` on, brought into r3 by way of r4.
unfoldable pub load_half : List ℕ → ℕ → M (Unit {0})
load_half b i = do
  program_emit (mov32_imm 3 (make32 b (i + 4)))
  program_emit (alu64_imm_insn alu_lsh 3 32)
  program_emit (mov32_imm 4 (make32 b i))
  program_emit (alu64_reg_insn alu_or 3 4)

-- The comparison that `_bf_matcher_generate_ip6_addr()` and `_bf_matcher_generate_ip6_net()` have
-- in common: r1 and r2 against the 16 bytes.
unfoldable pub ip6_equal : List ℕ → M (Unit {0})
ip6_equal b = do
  load_half b 0
  emit_fixup_jmp_next_rule (jmp_reg_insn jne 1 3 0)
  load_half b 8
  emit_fixup_jmp_next_rule (jmp_reg_insn jne 2 3 0)

unfoldable pub ip6_differ : List ℕ → M (Unit {0})
ip6_differ b = do
  load_half b 0
  j0 ← jmpctx_get (jmp_reg_insn jne 1 3 0)
  load_half b 8
  j1 ← jmpctx_get (jmp_reg_insn jne 2 3 0)
  emit_fixup_jmp_next_rule (jmp_a_insn 0)
  jmpctx_cleanup j0
  jmpctx_cleanup j1

unfoldable pub matcher_generate_ip6_addr : Matcher → M (Unit {0})
matcher_generate_ip6_addr m = do
  program_emit (ldx_mem dword 1 6 (ip6_addr_offset m.type))
  program_emit (ldx_mem dword 2 6 (ip6_addr_offset m.type + 8))
  if is_eq m.op then ip6_equal m.payload else ip6_differ m.payload

unfoldable pub ip6_prefix_to_mask : ℕ → List ℕ
ip6_prefix_to_mask prefixlen = prefix_to_mask 16 prefixlen

-- `addr->data[i] & mask[i]` for every byte; the data lies behind the prefix length.
abbrev pub and_bytes : List ℕ → List ℕ → List ℕ
and_bytes (a ∷ s) (b ∷ t) = bit_and a b ∷ and_bytes s t
and_bytes _ _ = []

abbrev pub ip6_mask : Matcher → List ℕ
ip6_mask m = ip6_prefix_to_mask (payload_u32 m 0)

abbrev pub masked_data : Matcher → List ℕ
masked_data m = and_bytes (bytes_from m.payload 4 16) (ip6_mask m)

unfoldable pub apply_ip6_mask : List ℕ → M (Unit {0})
apply_ip6_mask mask = do
  load_half mask 0
  program_emit (alu64_reg_insn alu_and 1 3)
  load_half mask 8
  program_emit (alu64_reg_insn alu_and 2 3)

unfoldable pub matcher_generate_ip6_net : Matcher → M (Unit {0})
matcher_generate_ip6_net m = do
  program_emit (ldx_mem dword 1 6 (ip6_net_offset m.type))
  program_emit (ldx_mem dword 2 6 (ip6_net_offset m.type + 8))
  if get_or (ip6_mask m) 15 0 == 255 then skip else apply_ip6_mask (ip6_mask m)
  if is_eq m.op then ip6_equal (masked_data m) else ip6_differ (masked_data m)

-- The bit of an extension header in `ipv6_eh`, if the number is one.
abbrev pub eh_mask : ℕ → Option ℕ
eh_mask n =
    if n == 0
    then some 1
    else if n == 43
    then some 2
    else if n == 44
    then some 4
    else if n == 51
    then some 8
    else if n == 60
    then some 16
    else if n == 135
    then some 32
    else none

abbrev pub is_eq_or_ne : MatcherOp → Bool
is_eq_or_ne op_eq = true
is_eq_or_ne op_ne = true
is_eq_or_ne _ = false

unfoldable pub test_extension : MatcherOp → ℕ → M (Unit {0})
test_extension op mask = do
  program_emit (ldx_mem dword 1 10 (prog_ctx_off ipv6_eh))
  program_emit (alu64_imm_insn alu_and 1 mask)
  emit_fixup_jmp_next_rule (jmp_imm_insn (if is_eq op then jeq else jne) 1 0 0)

unfoldable pub matcher_generate_ip6_nexthdr : Matcher → M (Unit {0})
matcher_generate_ip6_nexthdr m =
    if is_eq_or_ne m.op
    then elim (eh_mask (payload_u8 m)) [
      | some mask ↦ test_extension m.op mask
      | none ↦ emit_fixup_jmp_next_rule (jmp_imm_insn (mismatch_op m.op) 8 (payload_u8 m) 0)
    ]
    else fail einval

abbrev pub ip6_by_type : MatcherType → Matcher → M (Unit {0})
ip6_by_type ip6_saddr m = matcher_generate_ip6_addr m
ip6_by_type ip6_daddr m = matcher_generate_ip6_addr m
ip6_by_type ip6_snet m = matcher_generate_ip6_net m
ip6_by_type ip6_dnet m = matcher_generate_ip6_net m
ip6_by_type ip6_nexthdr m = matcher_generate_ip6_nexthdr m
ip6_by_type _ m = fail einval

unfoldable pub matcher_generate_ip6 : Matcher → M (Unit {0})
matcher_generate_ip6 m = do
  emit_fixup_jmp_next_rule (jmp_imm_insn jne 7 (htobe16 0x86dd) 0)
  program_emit (ldx_mem dword 6 10 (prog_ctx_off l3_hdr))
  ip6_by_type m.type m
