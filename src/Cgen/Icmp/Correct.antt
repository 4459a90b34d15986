-- ===== src/Cgen/Icmp/Correct.antt =====
-- What the code of an ICMP or ICMPv6 matcher tests.
use bpfilter_study.Base.{ℕ, ◌<◌, Bool, List, ◌==◌, ◌^◌, true, ◌≡◌, ◌&&◌, arith, false, ◌∷◌, refl}
use bpfilter_study.Program.{Env, ◌>>◌}
use bpfilter_study.Matcher.{
  Matcher, MatcherType, icmp_type, icmpv6_type, icmpv6_code, icmp_code, payload_u8, payload_u8-lt,
}
use bpfilter_study.Program.Emits.{IsAmple, Emits, plain, Emits->>}
use bpfilter_study.Machine.{Kernel}
use bpfilter_study.Machine.Decides.{View, to_next}
use bpfilter_study.Fixup.{Cell}
use bpfilter_study.Cgen.Icmp.{
  matcher_generate_icmp, matcher_generate_icmp4_fields, matcher_generate_icmp_fields,
  matcher_generate_icmp6_fields, icmp_by_type,
}
use bpfilter_study.Cgen.Compare.Correct.{
  takes_eq_ne, l4-Decides, header_value-Decided, value_cells, load_l4_header-Emits,
  compare_value-Emits,
}
use bpfilter_study.Cgen.Implements.{Implements, eq_or_ne, header_field}
use bpfilter_study.Insn.{jmp_imm_insn, jne, byte, ldx_mem, dword}
use bpfilter_study.Cgen.Compare.{load_l4_header}
use bpfilter_study.Runtime.{l4_hdr, prog_ctx_off}
use bpfilter_study.Program.Blocks.{emit_then}

-- The L4 protocol, and the offset of the field, by type.
abbrev pub icmp_proto : MatcherType → ℕ
icmp_proto icmpv6_type = 58
icmp_proto icmpv6_code = 58
icmp_proto _ = 1

abbrev pub icmp_offset : MatcherType → ℕ
icmp_offset icmp_type = 0
icmp_offset icmpv6_type = 0
icmp_offset _ = 1

abbrev pub is_icmp_type : MatcherType → Bool
is_icmp_type icmp_type = true
is_icmp_type icmp_code = true
is_icmp_type icmpv6_type = true
is_icmp_type icmpv6_code = true
is_icmp_type _ = false

abbrev icmp_cells : MatcherType → Matcher → List Cell
icmp_cells t m =
    to_next (jmp_imm_insn jne 8 (icmp_proto t) 0)
    ∷ plain (ldx_mem dword 6 10 (prog_ctx_off l4_hdr))
    ∷ plain (ldx_mem byte 1 6 (icmp_offset t))
    ∷ value_cells m.op (payload_u8 m)

abbrev pub icmp_test : Matcher → View → Bool
icmp_test m v =
    v.l4_proto == icmp_proto m.type
    && eq_or_ne m.op (header_field l4_hdr byte v (icmp_offset m.type)) (payload_u8 m)

module _ {env : Env} (ample : IsAmple env) where
  fields-Emits :
      (m : Matcher) (proto off : ℕ)
      → takes_eq_ne m.op ≡ true
      → Emits env (load_l4_header proto >> matcher_generate_icmp_fields m off) (
          to_next (jmp_imm_insn jne 8 proto 0)
          ∷ plain (ldx_mem dword 6 10 (prog_ctx_off l4_hdr))
          ∷ plain (ldx_mem byte 1 6 off)
          ∷ value_cells m.op (payload_u8 m))
  unfolding matcher_generate_icmp_fields
  fields-Emits m proto off h =
      Emits->> (load_l4_header-Emits ample proto)
        (emit_then ample _ (compare_value-Emits ample m.op _ h))

  type-Emits :
      (t : MatcherType) (m : Matcher)
      → m.type ≡ t
      → is_icmp_type t ≡ true
      → takes_eq_ne m.op ≡ true
      → Emits env (icmp_by_type t m) (icmp_cells t m)
  unfolding matcher_generate_icmp4_fields matcher_generate_icmp6_fields matcher_generate_icmp_fields
  type-Emits icmp_type m et ht h = rw et (fields-Emits m 1 0 h)
  type-Emits icmp_code m et ht h = rw et (fields-Emits m 1 1 h)
  type-Emits icmpv6_type m et ht h = rw et (fields-Emits m 58 0 h)
  type-Emits icmpv6_code m et ht h = rw et (fields-Emits m 58 1 h)
  type-Emits _ m et ht h = cc

  icmp-Emits :
      (m : Matcher)
      → is_icmp_type m.type ≡ true
      → takes_eq_ne m.op ≡ true
      → Emits env (matcher_generate_icmp m) (icmp_cells m.type m)
  unfolding matcher_generate_icmp
  icmp-Emits m ht h = type-Emits m.type m refl ht h

icmp_proto-lt : (t : MatcherType) → icmp_proto t < 2 ^ 31
icmp_proto-lt icmpv6_type = omega arith
icmp_proto-lt icmpv6_code = omega arith
icmp_proto-lt _ = omega arith

-- The code of an ICMP or ICMPv6 matcher matches the packets whose L4 protocol is the one of its
-- type and whose type or code is equal to or different from the payload, for these two operators.
-- There is memory enough.
pub matcher_generate_icmp-Implements :
    {env : Env} (k : Kernel) (m : Matcher)
    → IsAmple env
    → is_icmp_type m.type ≡ true
    → takes_eq_ne m.op ≡ true
    → Implements env k 8 (matcher_generate_icmp m) (icmp_test m)
matcher_generate_icmp-Implements k m ample ht h = record {
  cells = icmp_cells m.type m;
  emits = icmp-Emits ample m ht h;
  linked = refl;
  short = omega arith;
  decides = l4-Decides k (icmp_proto m.type) _ _ (icmp_proto-lt m.type) (λ s v e e6.
      header_value-Decided k m.op (icmp_offset m.type) (payload_u8 m) s e e6
        (omega (arith, payload_u8-lt m)));
}
