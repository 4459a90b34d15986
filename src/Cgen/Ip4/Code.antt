-- ===== src/Cgen/Ip4/Code.antt =====
-- The code of an IPv4 matcher, and what a packet it matches is.
use bpfilter_study.Base.{
  ◌≡◌, Bool, true, false, ◌&&◌, List, [], ◌∷◌, ◌==◌, if◌then◌else◌, ◌++◌, bit_and, htobe16, ℕ,
}
use bpfilter_study.Insn.{
  word, dword, byte, jne, ldx_mem, mov32_imm, jmp_imm_insn, jmp_reg_insn, alu32_reg_insn, alu_and,
}
use bpfilter_study.Fixup.{Cell}
use bpfilter_study.Machine.Decides.{View, to_next}
use bpfilter_study.Matcher.{
  MatcherType, ip4_saddr, ip4_daddr, ip4_proto, ip4_snet, ip4_dnet, Matcher, payload_u8,
  payload_u32,
}
use bpfilter_study.Runtime.{prog_ctx_off, l3_hdr}
use bpfilter_study.Program.{Env}
use bpfilter_study.Program.Emits.{
  plain, IsAmple, Emits, program_emit-Emits, Emits->>, Emits-if, Emits-pure,
}
use bpfilter_study.Program.Blocks.{emit_then, next_rule_then, next_rule_last}
use bpfilter_study.Cgen.Implements.{mismatch_op, eq_or_ne, header_field}
use bpfilter_study.Cgen.Ip4.{
  ip4_addr_offset, ip4_net_offset, ip4_mask, apply_ip4_mask, matcher_generate_ip4_net,
  matcher_generate_ip4_addr, matcher_generate_ip4_proto, matcher_generate_ip4, ip4_by_type,
}

abbrev pub load_addr : Matcher → List Cell
load_addr m =
    plain (ldx_mem word 1 6 (ip4_addr_offset m.type)) ∷ plain (mov32_imm 2 (payload_u32 m 0)) ∷ []

abbrev pub addr_cells : Matcher → List Cell
addr_cells m = load_addr m ++ to_next (jmp_reg_insn (mismatch_op m.op) 1 2 0) ∷ []

abbrev pub proto_cells : Matcher → List Cell
proto_cells m =
    plain (ldx_mem byte 1 6 9) ∷ to_next (jmp_imm_insn (mismatch_op m.op) 1 (payload_u8 m) 0) ∷ []

abbrev pub mask_cells : ℕ → List Cell
mask_cells mask =
    plain (mov32_imm 3 mask)
    ∷ plain (alu32_reg_insn alu_and 1 3)
    ∷ plain (alu32_reg_insn alu_and 2 3)
    ∷ []

abbrev pub net_cells : Matcher → List Cell
net_cells m =
    plain (ldx_mem word 1 6 (ip4_net_offset m.type))
      ∷ plain (mov32_imm 2 (payload_u32 m 1))
      ∷ (if ip4_mask m == 0xffff_ffff then [] else mask_cells (ip4_mask m))
    ++ to_next (jmp_reg_insn (mismatch_op m.op) 1 2 0) ∷ []

abbrev pub body_cells : MatcherType → Matcher → List Cell
body_cells ip4_saddr m = addr_cells m
body_cells ip4_daddr m = addr_cells m
body_cells ip4_proto m = proto_cells m
body_cells _ m = net_cells m

abbrev pub ip4_cells : Matcher → List Cell
ip4_cells m =
    to_next (jmp_imm_insn jne 7 (htobe16 0x0800) 0)
    ∷ plain (ldx_mem dword 6 10 (prog_ctx_off l3_hdr))
    ∷ body_cells m.type m

abbrev pub is_ip4_type : MatcherType → Bool
is_ip4_type ip4_saddr = true
is_ip4_type ip4_daddr = true
is_ip4_type ip4_proto = true
is_ip4_type ip4_snet = true
is_ip4_type ip4_dnet = true
is_ip4_type _ = false

-- What an IPv4 matcher says of a packet.
abbrev pub ip4_value_test : MatcherType → Matcher → View → Bool
ip4_value_test ip4_saddr m v = eq_or_ne m.op (header_field l3_hdr word v 12) (payload_u32 m 0)
ip4_value_test ip4_daddr m v = eq_or_ne m.op (header_field l3_hdr word v 16) (payload_u32 m 0)
ip4_value_test ip4_proto m v = eq_or_ne m.op (header_field l3_hdr byte v 9) (payload_u8 m)
ip4_value_test ip4_snet m v =
    eq_or_ne m.op (bit_and (header_field l3_hdr word v 12) (ip4_mask m))
      (bit_and (payload_u32 m 1) (ip4_mask m))
ip4_value_test _ m v =
    eq_or_ne m.op (bit_and (header_field l3_hdr word v 16) (ip4_mask m))
      (bit_and (payload_u32 m 1) (ip4_mask m))

abbrev pub ip4_test : Matcher → View → Bool
ip4_test m v = v.l3_proto == htobe16 0x0800 && ip4_value_test m.type m v

module _ {env : Env} (ample : IsAmple env) where
  addr-Emits : (m : Matcher) → Emits env (matcher_generate_ip4_addr m) (addr_cells m)
  unfolding matcher_generate_ip4_addr
  addr-Emits m = emit_then ample _ (emit_then ample _ (next_rule_last ample _))

  proto-Emits : (m : Matcher) → Emits env (matcher_generate_ip4_proto m) (proto_cells m)
  unfolding matcher_generate_ip4_proto
  proto-Emits m = emit_then ample _ (next_rule_last ample _)

  mask-Emits : (mask : ℕ) → Emits env (apply_ip4_mask mask) (mask_cells mask)
  unfolding apply_ip4_mask
  mask-Emits mask = emit_then ample _ (emit_then ample _ (program_emit-Emits ample _))

  net-Emits : (m : Matcher) → Emits env (matcher_generate_ip4_net m) (net_cells m)
  unfolding matcher_generate_ip4_net
  net-Emits m = emit_then ample _ (
      emit_then ample _ (
        Emits->> (Emits-if (ip4_mask m == 0xffff_ffff) (Emits-pure tt) (mask-Emits (ip4_mask m)))
          (next_rule_last ample _)))

  body-Emits :
      (t : MatcherType) (m : Matcher)
      → is_ip4_type t ≡ true
      → Emits env (ip4_by_type t m) (body_cells t m)
  body-Emits ip4_saddr m h = addr-Emits m
  body-Emits ip4_daddr m h = addr-Emits m
  body-Emits ip4_proto m h = proto-Emits m
  body-Emits ip4_snet m h = net-Emits m
  body-Emits ip4_dnet m h = net-Emits m
  body-Emits _ m h = cc

  pub ip4-Emits :
      (m : Matcher) → is_ip4_type m.type ≡ true → Emits env (matcher_generate_ip4 m) (ip4_cells m)
  unfolding matcher_generate_ip4
  ip4-Emits m h = next_rule_then ample _ (emit_then ample _ (body-Emits m.type m h))
