-- ===== src/Cgen/Ip6/Correct.antt =====
-- What the code of a matcher on the IPv6 next header tests.
use bpfilter_study.Base.{
  ℕ, Bool, Option, ◌<◌, ◌==◌, List, length, some, arith, htobe16, if◌then◌else◌, none, sext32, ◌≡◌,
  ◌≤◌, ◌&&◌, s32, true, false, not, refl, Bool-cases, bit_and, ap, inl, ◌∷◌, inr, [],
}
use bpfilter_study.Program.{Env, emit_fixup_jmp_next_rule}
use bpfilter_study.Matcher.{
  Matcher, MatcherOp, MatcherType, ip6_nexthdr, is_eq, payload_u8, payload_u8-lt,
}
use bpfilter_study.Machine.Decides.{
  View, stays, Decides, to_next, view, Decided, guard_imm-Decided, Decided-eq, last_imm-Decided,
}
use bpfilter_study.Cgen.Ip6.{
  eh_mask, matcher_generate_ip6, matcher_generate_ip6_nexthdr, test_extension, is_eq_or_ne,
  ip6_by_type,
}
use bpfilter_study.Machine.{exec, Kernel, alu64, load, Machine, address, ran}
use bpfilter_study.Program.Emits.{IsAmple, Emits, plain}
use bpfilter_study.Insn.{JmpOp, dword, jeq, jmp_imm_insn, ldx_mem, jne, alu64_imm_insn, alu_and}
use bpfilter_study.Machine.Link.{are_open}
use bpfilter_study.Fixup.{Cell}
use bpfilter_study.Cgen.Implements.{Implements, mismatch_op, eq_or_ne, stays-mismatch_imm}
use bpfilter_study.Program.Blocks.{next_rule_then, emit_then, next_rule_last}
use bpfilter_study.Runtime.{prog_ctx_off, ipv6_eh, l3_hdr}

-- The jump of a test for an extension header.
abbrev absent_op : MatcherOp → JmpOp
absent_op op = if is_eq op then jeq else jne

abbrev nexthdr_body : Option ℕ → Matcher → List Cell
nexthdr_body (some mask) m =
    plain (ldx_mem dword 1 10 (prog_ctx_off ipv6_eh))
    ∷ plain (alu64_imm_insn alu_and 1 mask)
    ∷ to_next (jmp_imm_insn (absent_op m.op) 1 0 0)
    ∷ []
nexthdr_body none m = to_next (jmp_imm_insn (mismatch_op m.op) 8 (payload_u8 m) 0) ∷ []

abbrev nexthdr_cells : Matcher → List Cell
nexthdr_cells m =
    to_next (jmp_imm_insn jne 7 (htobe16 0x86dd) 0)
    ∷ plain (ldx_mem dword 6 10 (prog_ctx_off l3_hdr))
    ∷ nexthdr_body (eh_mask (payload_u8 m)) m

-- The extension headers that have been seen, as bits.
abbrev pub extensions : View → ℕ
extensions v = load dword v.mem (address v.frame (prog_ctx_off ipv6_eh))

abbrev pub extension_or_proto : Option ℕ → Matcher → View → Bool
extension_or_proto (some mask) m v =
    if is_eq m.op then not (bit_and (extensions v) mask == 0) else bit_and (extensions v) mask == 0
extension_or_proto none m v = eq_or_ne m.op v.l4_proto (payload_u8 m)

abbrev pub nexthdr_test : Matcher → View → Bool
nexthdr_test m v = v.l3_proto == htobe16 0x86dd && extension_or_proto (eh_mask (payload_u8 m)) m v

module _ {env : Env} (ample : IsAmple env) where
  body-Emits :
      (o : Option ℕ) (m : Matcher)
      → Emits env
          (elim o [
            | some mask ↦ test_extension m.op mask
            | none ↦ emit_fixup_jmp_next_rule (jmp_imm_insn (mismatch_op m.op) 8 (payload_u8 m) 0)
          ])
          (nexthdr_body o m)
  unfolding test_extension
  body-Emits (some mask) m = emit_then ample _ (emit_then ample _ (next_rule_last ample _))
  body-Emits none m = next_rule_last ample _

  nexthdr-Emits :
      (m : Matcher)
      → is_eq_or_ne m.op ≡ true
      → Emits env (matcher_generate_ip6_nexthdr m) (nexthdr_body (eh_mask (payload_u8 m)) m)
  unfolding matcher_generate_ip6_nexthdr
  nexthdr-Emits m h = rw (matcher_generate_ip6_nexthdr, h) (body-Emits (eh_mask (payload_u8 m)) m)

  type-Emits :
      (t : MatcherType) (m : Matcher)
      → t ≡ ip6_nexthdr
      → is_eq_or_ne m.op ≡ true
      → Emits env (ip6_by_type t m) (nexthdr_body (eh_mask (payload_u8 m)) m)
  type-Emits t m e h = rw e (nexthdr-Emits m h)

  ip6-Emits :
      (m : Matcher)
      → m.type ≡ ip6_nexthdr
      → is_eq_or_ne m.op ≡ true
      → Emits env (matcher_generate_ip6 m) (nexthdr_cells m)
  unfolding matcher_generate_ip6
  ip6-Emits m e h = next_rule_then ample _ (emit_then ample _ (type-Emits m.type m e h))

abbrev or_zero : Option ℕ → ℕ
or_zero (some n) = n
or_zero none = 0

-- The bits of extension headers are small.
if-lt :
    (b : Bool) (x : ℕ) (o : Option ℕ)
    → x < 64
    → or_zero o < 64
    → or_zero (if b then some x else o) < 64
if-lt true x o h k = h
if-lt false x o h k = k

eh_mask-lt : (n : ℕ) → or_zero (eh_mask n) < 64
eh_mask-lt n = if-lt (n == 0) 1 _ (omega arith) (
    if-lt (n == 43) 2 _ (omega arith) (
      if-lt (n == 44) 4 _ (omega arith) (
        if-lt (n == 51) 8 _ (omega arith) (
          if-lt (n == 60) 16 _ (omega arith)
            (if-lt (n == 135) 32 none (omega arith) (omega arith))))))

stays-absent :
    (op : MatcherOp) (x : ℕ)
    → stays (absent_op op) x (sext32 (s32 0)) ≡ (if is_eq op then not (x == 0) else x == 0)
stays-absent op x = elim (Bool-cases (is_eq op)) [ inl e ↦ rw e refl | inr e ↦ rw e refl ]

body-Decided :
    (k : Kernel) (o : Option ℕ) (m : Matcher) (s : Machine) {v : View}
    → view s ≡ v
    → or_zero o < 64
    → Decided v (extension_or_proto o m v) (exec k (nexthdr_body o m) 0 s)
unfolding exec alu64
body-Decided k (some mask) m s {v} e h =
    let em : sext32 (s32 mask) ≡ mask = ground arith in
    let ev : load dword s.mem (address (s.reg 10) (prog_ctx_off ipv6_eh)) ≡ extensions v =
      ap extensions e in
    Decided-eq (rw (em, ev) (stays-absent m.op (bit_and (extensions v) mask))) (
      last_imm-Decided k (absent_op m.op) 1 0
        (ran k
          (plain (ldx_mem dword 1 10 (prog_ctx_off ipv6_eh))
            ∷ plain (alu64_imm_insn alu_and 1 mask)
            ∷ [])
          s)
        e)
body-Decided k none m s {v} e h =
    let er : s.reg 8 ≡ v.l4_proto = ap (λ (w : View). w.l4_proto) e in
    Decided-eq
      (rw er (stays-mismatch_imm m.op v.l4_proto (payload_u8 m) (omega (arith, payload_u8-lt m))))
      (last_imm-Decided k (mismatch_op m.op) 8 (payload_u8 m) s e)

nexthdr-Decides : (k : Kernel) (m : Matcher) → Decides k (nexthdr_cells m) (nexthdr_test m)
unfolding exec
nexthdr-Decides k m s =
    let load_hdr = plain (ldx_mem dword 6 10 (prog_ctx_off l3_hdr)) in
    guard_imm-Decided k jne 7 (htobe16 0x86dd) (load_hdr ∷ nexthdr_body (eh_mask (payload_u8 m)) m)
      s refl
      (body-Decided k (eh_mask (payload_u8 m)) m (ran k (load_hdr ∷ []) s) refl
        (eh_mask-lt (payload_u8 m)))

nexthdr-linked : (o : Option ℕ) (m : Matcher) → are_open (nexthdr_body o m) ≡ true
nexthdr-linked (some mask) m = refl
nexthdr-linked none m = refl

nexthdr-short : (o : Option ℕ) (m : Matcher) → length (nexthdr_body o m) ≤ 3
nexthdr-short (some mask) m = omega arith
nexthdr-short none m = omega arith

-- The code of a matcher on the IPv6 next header matches the IPv6 packets for which the bit of the
-- extension header is set in the runtime context's `ipv6_eh`, if the payload is the number of one
-- that has a bit, and else those whose L4 protocol is the payload, or under BF_MATCHER_NE those for
-- which this is not so. Which bits the header stub sets is not part of it. There is memory enough.
pub matcher_generate_ip6-Implements :
    {env : Env} (k : Kernel) (m : Matcher)
    → IsAmple env
    → m.type ≡ ip6_nexthdr
    → is_eq_or_ne m.op ≡ true
    → Implements env k 8 (matcher_generate_ip6 m) (nexthdr_test m)
matcher_generate_ip6-Implements k m ample e h = record {
  cells = nexthdr_cells m;
  short = omega (arith, nexthdr-short (eh_mask (payload_u8 m)) m);
  emits = ip6-Emits ample m e h;
  linked = nexthdr-linked (eh_mask (payload_u8 m)) m;
  decides = nexthdr-Decides k m;
}
