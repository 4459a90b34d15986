-- ===== src/Cgen/Compare/Correct.antt =====
-- What the shared parts of the matchers' code test.
use bpfilter_study.Base.{
  length, ◌≤◌, ℕ, Bool, List, leb, true, ◌≡◌, ◌<◌, false, ◌^◌, htobe16, ◌&&◌, ◌∷◌, [], arith,
  sext32, ◌==◌, s32, refl,
}
use bpfilter_study.Program.{Env}
use bpfilter_study.Machine.{Kernel, exec, Machine, ran}
use bpfilter_study.Matcher.{MatcherOp, Matcher, payload_u16, payload_u16-lt, op_eq, op_range, op_ne}
use bpfilter_study.Program.Emits.{IsAmple, Emits, plain, program_emit-Emits}
use bpfilter_study.Fixup.{Cell}
use bpfilter_study.Machine.Decides.{
  View, to_next, view, Decided, Decided-eq, Decides, last_imm-Decided, guard_imm-Decided,
}
use bpfilter_study.Cgen.Compare.{compare_port, compare_value, load_l4_header}
use bpfilter_study.Insn.{bswap16, jmp_imm_insn, jne, jlt, ldx_mem, dword, jgt, byte, half}
use bpfilter_study.Program.Blocks.{next_rule_last, emit_then, next_rule_then}
use bpfilter_study.Cgen.Implements.{
  eq_or_ne, mismatch_op, PointsTo, stays-mismatch_imm, header_field, field-header,
}
use bpfilter_study.Runtime.{l4_hdr, prog_ctx_off}
use bpfilter_study.Machine.Link.{are_open}

abbrev pub takes_eq_ne : MatcherOp → Bool
takes_eq_ne op_eq = true
takes_eq_ne op_ne = true
takes_eq_ne _ = false

abbrev pub value_cells : MatcherOp → ℕ → List Cell
value_cells op value = to_next (jmp_imm_insn (mismatch_op op) 1 value 0) ∷ []

abbrev pub takes_port : MatcherOp → Bool
takes_port op_eq = true
takes_port op_ne = true
takes_port op_range = true
takes_port _ = false

abbrev pub port_cells : MatcherOp → Matcher → List Cell
port_cells op_range m =
    plain (bswap16 1)
    ∷ to_next (jmp_imm_insn jlt 1 (payload_u16 m 0) 0)
    ∷ to_next (jmp_imm_insn jgt 1 (payload_u16 m 1) 0)
    ∷ []
port_cells op m = value_cells op (payload_u16 m 0)

-- A port as it lies in the packet, in network order, against the payload: equal, different, or,
-- turned into a number, within the range.
abbrev pub port_test : MatcherOp → Matcher → ℕ → Bool
port_test op_range m port =
    leb (payload_u16 m 0) (htobe16 port) && leb (htobe16 port) (payload_u16 m 1)
port_test op m port = eq_or_ne op port (payload_u16 m 0)

pub port-short : (op : MatcherOp) (m : Matcher) → length (port_cells op m) ≤ 3
port-short op_range m = omega arith
port-short _ m = omega arith

pub port-linked : (op : MatcherOp) (m : Matcher) → are_open (port_cells op m) ≡ true
port-linked op_range m = refl
port-linked _ m = refl

module _ {env : Env} (ample : IsAmple env) where
  pub compare_value-Emits :
      (op : MatcherOp) (value : ℕ)
      → takes_eq_ne op ≡ true
      → Emits env (compare_value op value) (value_cells op value)
  compare_value-Emits op_eq value h = next_rule_last ample _
  compare_value-Emits op_ne value h = next_rule_last ample _
  compare_value-Emits _ value h = cc

  pub compare_port-Emits :
      (op : MatcherOp) (m : Matcher)
      → takes_port op ≡ true
      → Emits env (compare_port op m) (port_cells op m)
  compare_port-Emits op_eq m h = next_rule_last ample _
  compare_port-Emits op_ne m h = next_rule_last ample _
  compare_port-Emits op_range m h =
      emit_then ample _ (next_rule_then ample _ (next_rule_last ample _))
  compare_port-Emits _ m h = cc

  pub load_l4_header-Emits :
      (proto : ℕ)
      → Emits env (load_l4_header proto) (
          to_next (jmp_imm_insn jne 8 proto 0)
          ∷ plain (ldx_mem dword 6 10 (prog_ctx_off l4_hdr))
          ∷ [])
  load_l4_header-Emits proto = next_rule_then ample _ (program_emit-Emits ample _)

pub value-Decided :
    (k : Kernel) (op : MatcherOp) (value : ℕ) (s : Machine) {v : View}
    → view s ≡ v
    → value < 2 ^ 31
    → Decided v (eq_or_ne op (s.reg 1) value) (exec k (value_cells op value) 0 s)
value-Decided k op value s e h =
    Decided-eq (stays-mismatch_imm op _ _ h) (last_imm-Decided k (mismatch_op op) 1 value s e)

-- The two bounds of a range.
range-Decided :
    (k : Kernel) (low high : ℕ) (s : Machine) {v : View}
    → view s ≡ v
    → low < 2 ^ 31
    → high < 2 ^ 31
    → Decided v
        (leb low (s.reg 1) && leb (s.reg 1) high)
        (exec k (to_next (jmp_imm_insn jlt 1 low 0) ∷ to_next (jmp_imm_insn jgt 1 high 0) ∷ []) 0 s)
range-Decided k low high s e hl hh =
    let el : sext32 (s32 low) ≡ low = ground arith in
    let eh : sext32 (s32 high) ≡ high = ground arith in
    Decided-eq (rw (el, eh))
      (guard_imm-Decided k jlt 1 low _ s e (last_imm-Decided k jgt 1 high s e))

pub port-Decided :
    (k : Kernel) (op : MatcherOp) (m : Matcher) (s : Machine) {v : View}
    → view s ≡ v
    → Decided v (port_test op m (s.reg 1)) (exec k (port_cells op m) 0 s)
unfolding exec
port-Decided k op_range m s e =
    range-Decided k (payload_u16 m 0) (payload_u16 m 1) (ran k (plain (bswap16 1) ∷ []) s) e
      (omega (arith, payload_u16-lt m 0)) (omega (arith, payload_u16-lt m 1))
port-Decided k op m s e =
    value-Decided k op (payload_u16 m 0) s e (omega (arith, payload_u16-lt m 0))

-- Code behind the guard of an L4 header and the load of its address.
pub l4-Decides :
    (k : Kernel) (proto : ℕ) (cs : List Cell) (q : View → Bool)
    → proto < 2 ^ 31
    → ((s : Machine) (v : View)
        → view s ≡ v
        → PointsTo l4_hdr v (s.reg 6)
        → Decided v (q v) (exec k cs 0 s))
    → Decides k
        (to_next (jmp_imm_insn jne 8 proto 0)
          ∷ plain (ldx_mem dword 6 10 (prog_ctx_off l4_hdr))
          ∷ cs)
        (λ v. v.l4_proto == proto && q v)
unfolding exec
l4-Decides k proto cs q h d s =
    let ep : sext32 (s32 proto) ≡ proto = ground arith in
    let load_hdr = plain (ldx_mem dword 6 10 (prog_ctx_off l4_hdr)) in
    Decided-eq (rw ep) (
      guard_imm-Decided k jne 8 proto (load_hdr ∷ cs) s refl
        (d (ran k (load_hdr ∷ []) s) (view s) refl refl))

-- A port of the L4 header.
pub header_port-Decided :
    (k : Kernel) (off : ℕ) (m : Matcher) (s : Machine) {v : View}
    → view s ≡ v
    → PointsTo l4_hdr v (s.reg 6)
    → Decided v
        (port_test m.op m (header_field l4_hdr half v off))
        (exec k (plain (ldx_mem half 1 6 off) ∷ port_cells m.op m) 0 s)
unfolding exec
header_port-Decided k off m s e e6 =
    Decided-eq (rw (field-header l4_hdr half off s e e6))
      (port-Decided k m.op m (ran k (plain (ldx_mem half 1 6 off) ∷ []) s) e)

-- A byte of the L4 header.
pub header_value-Decided :
    (k : Kernel) (op : MatcherOp) (off value : ℕ) (s : Machine) {v : View}
    → view s ≡ v
    → PointsTo l4_hdr v (s.reg 6)
    → value < 2 ^ 31
    → Decided v
        (eq_or_ne op (header_field l4_hdr byte v off) value)
        (exec k (plain (ldx_mem byte 1 6 off) ∷ value_cells op value) 0 s)
unfolding exec
header_value-Decided k op off value s e e6 h =
    Decided-eq (rw (field-header l4_hdr byte off s e e6))
      (value-Decided k op value (ran k (plain (ldx_mem byte 1 6 off) ∷ []) s) e h)
