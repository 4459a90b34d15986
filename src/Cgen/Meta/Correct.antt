-- ===== src/Cgen/Meta/Correct.antt =====
-- What the code of a matcher on the L3 or L4 protocol tests.
use bpfilter_study.Matcher.{op_eq}
use bpfilter_study.Base.{
  length, ◌≤◌, Bool, List, true, ◌≡◌, ◌==◌, false, htobe16, refl, ◌<◌, ◌^◌, ◌∷◌, [], arith,
}
use bpfilter_study.Program.{Env}
use bpfilter_study.Machine.{Kernel}
use bpfilter_study.Matcher.{
  MatcherType, Matcher, meta_l3_proto, meta_l4_proto, payload_u16, payload_u8, payload_u16-lt,
  payload_u8-lt,
}
use bpfilter_study.Cgen.Meta.{
  matcher_generate_meta, matcher_generate_meta_l3_proto, matcher_generate_meta_l4_proto,
  meta_by_type,
}
use bpfilter_study.Program.Emits.{IsAmple, Emits}
use bpfilter_study.Machine.Decides.{View, Decides, to_next, Decided-eq, last_imm-Decided}
use bpfilter_study.Machine.Link.{are_open}
use bpfilter_study.Fixup.{Cell}
use bpfilter_study.Cgen.Implements.{Implements, eq_or_ne, mismatch_op, stays-mismatch_imm}
use bpfilter_study.Insn.{jmp_imm_insn, jne}
use bpfilter_study.Program.Blocks.{next_rule_last}

abbrev pub is_proto_type : MatcherType → Bool
is_proto_type meta_l3_proto = true
is_proto_type meta_l4_proto = true
is_proto_type _ = false

abbrev proto_cells : MatcherType → Matcher → List Cell
proto_cells meta_l3_proto m = to_next (jmp_imm_insn jne 7 (htobe16 (payload_u16 m 0)) 0) ∷ []
proto_cells _ m = to_next (jmp_imm_insn (mismatch_op m.op) 8 (payload_u8 m) 0) ∷ []

-- The operator of an L3 protocol is not looked at.
abbrev pub proto_test : MatcherType → Matcher → View → Bool
proto_test meta_l3_proto m v = v.l3_proto == htobe16 (payload_u16 m 0)
proto_test _ m v = eq_or_ne m.op v.l4_proto (payload_u8 m)

proto-Emits :
    {env : Env} (t : MatcherType) (m : Matcher)
    → IsAmple env
    → is_proto_type t ≡ true
    → Emits env (meta_by_type t m) (proto_cells t m)
unfolding matcher_generate_meta_l3_proto matcher_generate_meta_l4_proto
proto-Emits meta_l3_proto m ample h = next_rule_last ample _
proto-Emits meta_l4_proto m ample h = next_rule_last ample _
proto-Emits _ m ample h = cc

meta-Emits :
    {env : Env} (m : Matcher)
    → IsAmple env
    → is_proto_type m.type ≡ true
    → Emits env (matcher_generate_meta m) (proto_cells m.type m)
unfolding matcher_generate_meta
meta-Emits m ample h = proto-Emits m.type m ample h

proto-linked : (t : MatcherType) (m : Matcher) → are_open (proto_cells t m) ≡ true
proto-linked meta_l3_proto m = refl
proto-linked _ m = refl

proto-short : (t : MatcherType) (m : Matcher) → length (proto_cells t m) ≤ 8
proto-short meta_l3_proto m = omega arith
proto-short _ m = omega arith

proto-Decides :
    (k : Kernel) (t : MatcherType) (m : Matcher)
    → is_proto_type t ≡ true
    → Decides k (proto_cells t m) (proto_test t m)
proto-Decides k meta_l3_proto m h s =
    let small : htobe16 (payload_u16 m 0) < 2 ^ 31 = omega (arith, payload_u16-lt m 0) in
    Decided-eq (stays-mismatch_imm op_eq _ _ small)
      (last_imm-Decided k jne 7 (htobe16 (payload_u16 m 0)) s refl)
proto-Decides k meta_l4_proto m h s =
    Decided-eq (stays-mismatch_imm m.op _ _ (omega (arith, payload_u8-lt m)))
      (last_imm-Decided k (mismatch_op m.op) 8 (payload_u8 m) s refl)
proto-Decides k _ m h s = cc

-- The code of a matcher on the L3 protocol matches the packets of that protocol, and the code of a
-- matcher on the L4 protocol those whose protocol compares to the payload as the operator says.
-- There is memory enough.
pub matcher_generate_meta-Implements :
    {env : Env} (k : Kernel) (m : Matcher)
    → IsAmple env
    → is_proto_type m.type ≡ true
    → Implements env k 8 (matcher_generate_meta m) (proto_test m.type m)
matcher_generate_meta-Implements k m ample h = record {
  cells = proto_cells m.type m;
  emits = meta-Emits m ample h;
  linked = proto-linked m.type m;
  short = proto-short m.type m;
  decides = proto-Decides k m.type m h;
}
