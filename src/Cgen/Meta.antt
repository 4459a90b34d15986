-- ===== src/Cgen/Meta.antt =====
-- src/bpfilter/cgen/matcher/meta.c
pub mod Correct
pub mod Iface
use bpfilter_study.Base.{ℕ, ◌*◌, ◌/◌, htobe16, ◌∷◌, []}
use bpfilter_study.Matcher.{
  Matcher, MatcherType, meta_sport, meta_iface, meta_l3_proto, payload_u32, payload_u8,
  meta_l4_proto, payload_u16, meta_probability, meta_dport, meta_mark,
}
use bpfilter_study.Program.{M, emit_fixup_jmp_next_rule, fail, ◌>>◌, einval, program_emit, ◌>>=◌}
use bpfilter_study.Insn.{jmp_imm_insn, emit_call, jne, ldx_mem, dword, half, jgt, mov64_imm, jeq}
use bpfilter_study.Cgen.Flavor.{ops_gen_inline_get_mark}
use bpfilter_study.Cgen.Compare.{compare_value, compare_port}
use bpfilter_study.Cgen.Implements.{mismatch_op}
use bpfilter_study.Runtime.{prog_ctx_off, ifindex, l4_hdr}
use bpfilter_study.Swich.{swich_add_option, swich_init, swich_set_default, swich_generate}

unfoldable pub matcher_generate_meta_iface : Matcher → M (Unit {0})
matcher_generate_meta_iface m = do
  program_emit (ldx_mem half 1 10 (prog_ctx_off ifindex))
  emit_fixup_jmp_next_rule (jmp_imm_insn jne 1 (payload_u32 m 0) 0)

unfoldable pub matcher_generate_meta_l3_proto : Matcher → M (Unit {0})
matcher_generate_meta_l3_proto m =
    emit_fixup_jmp_next_rule (jmp_imm_insn jne 7 (htobe16 (payload_u16 m 0)) 0)

unfoldable pub matcher_generate_meta_l4_proto : Matcher → M (Unit {0})
matcher_generate_meta_l4_proto m =
    emit_fixup_jmp_next_rule (jmp_imm_insn (mismatch_op m.op) 8 (payload_u8 m) 0)

-- `(uint32_t)((uint64_t)UINT32_MAX * (proba / 100.0))`: for a percentage the product in floating
-- point rounds to the same whole number.
abbrev pub probability_bound : ℕ → ℕ
probability_bound proba = 4294967295 * proba / 100

-- BPF_FUNC_get_prandom_u32 is 7.
unfoldable pub matcher_generate_meta_probability : Matcher → M (Unit {0})
matcher_generate_meta_probability m = do
  program_emit (emit_call 7)
  emit_fixup_jmp_next_rule (jmp_imm_insn jgt 0 (probability_bound (payload_u8 m)) 0)

-- The same in struct tcphdr and struct udphdr.
abbrev pub meta_port_offset : MatcherType → ℕ
meta_port_offset meta_sport = 0
meta_port_offset _ = 2

unfoldable pub matcher_generate_meta_port : Matcher → M (Unit {0})
matcher_generate_meta_port m = do
  program_emit (ldx_mem dword 6 10 (prog_ctx_off l4_hdr))
  s ← swich_add_option (swich_init 8) 6 (ldx_mem half 1 6 (meta_port_offset m.type) ∷ [])
  s ← swich_add_option s 17 (ldx_mem half 1 6 (meta_port_offset m.type) ∷ [])
  s ← swich_set_default s (mov64_imm 1 0 ∷ [])
  swich_generate s
  emit_fixup_jmp_next_rule (jmp_imm_insn jeq 1 0 0)
  compare_port m.op m

unfoldable pub matcher_generate_meta_mark : Matcher → M (Unit {0})
matcher_generate_meta_mark m = do ops_gen_inline_get_mark 1; compare_value m.op (payload_u32 m 0)

abbrev pub meta_by_type : MatcherType → Matcher → M (Unit {0})
meta_by_type meta_iface m = matcher_generate_meta_iface m
meta_by_type meta_l3_proto m = matcher_generate_meta_l3_proto m
meta_by_type meta_l4_proto m = matcher_generate_meta_l4_proto m
meta_by_type meta_probability m = matcher_generate_meta_probability m
meta_by_type meta_sport m = matcher_generate_meta_port m
meta_by_type meta_dport m = matcher_generate_meta_port m
meta_by_type meta_mark m = matcher_generate_meta_mark m
meta_by_type _ m = fail einval

unfoldable pub matcher_generate_meta : Matcher → M (Unit {0})
matcher_generate_meta m = meta_by_type m.type m
