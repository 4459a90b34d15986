-- ===== src/Cgen/Ip4/Correct.antt =====
-- What the code of an IPv4 matcher tests.
use bpfilter_study.Base.{
  length, ◌≤◌, ◌≡◌, true, List, [], ◌∷◌, ◌==◌, ◌++◌, bit_and, htobe16, ℕ, arith, Bool-cases, inl,
  inr, ◌<◌, ◌^◌, ◌%◌, s32, ==_iff, bit_and-ones, refl, ◌+◌,
}
use bpfilter_study.Insn.{word, dword, byte, jne, ldx_mem, mov32_imm}
use bpfilter_study.Fixup.{Cell}
use bpfilter_study.Machine.Decides.{
  View, view, Decided, Decided-eq, last_reg-Decided, last_imm-Decided, stays, Decides,
  guard_imm-Decided,
}
use bpfilter_study.Matcher.{
  MatcherType, ip4_saddr, ip4_daddr, ip4_proto, ip4_snet, ip4_dnet, Matcher, payload_u8,
  payload_u32, payload_u32-lt, payload_u8-lt, MatcherOp,
}
use bpfilter_study.Runtime.{prog_ctx_off, l3_hdr}
use bpfilter_study.Program.{Env}
use bpfilter_study.Program.Emits.{plain, IsAmple}
use bpfilter_study.Cgen.Implements.{
  mismatch_op, eq_or_ne, stays-mismatch_imm, stays-mismatch_mov, stays-mismatch, Implements,
  PointsTo, field-header,
}
use bpfilter_study.Cgen.Ip4.{ip4_addr_offset, ip4_net_offset, ip4_mask, matcher_generate_ip4}
use bpfilter_study.Machine.{exec, Kernel, alu32, Machine, load, address, ran, load-lt}
use bpfilter_study.Cgen.Ip4.Mask.{ip4_mask-lt}
use bpfilter_study.Machine.Link.{are_open}
use bpfilter_study.Cgen.Ip4.Code.{
  addr_cells, body_cells, is_ip4_type, net_cells, proto_cells, ip4_cells, ip4_test, ip4_value_test,
  load_addr, mask_cells, ip4-Emits,
}

addr-Decided :
    (k : Kernel) (m : Matcher) (s : Machine) {v : View}
    → view s ≡ v
    → Decided v
        (eq_or_ne m.op
          (load word s.mem (address (s.reg 6) (ip4_addr_offset m.type)))
          (payload_u32 m 0))
        (exec k (addr_cells m) 0 s)
unfolding exec alu32
addr-Decided k m s e =
    Decided-eq (stays-mismatch_mov m.op _ _ (payload_u32-lt m 0))
      (last_reg-Decided k (mismatch_op m.op) 1 2 (ran k (load_addr m) s) e)

proto-Decided :
    (k : Kernel) (m : Matcher) (s : Machine) {v : View}
    → view s ≡ v
    → Decided v
        (eq_or_ne m.op (load byte s.mem (address (s.reg 6) 9)) (payload_u8 m))
        (exec k (proto_cells m) 0 s)
unfolding exec
proto-Decided k m s e = Decided-eq (stays-mismatch_imm m.op _ _ (omega (arith, payload_u8-lt m))) (
    last_imm-Decided k (mismatch_op m.op) 1 (payload_u8 m)
      (ran k (plain (ldx_mem byte 1 6 9) ∷ []) s) e)

abbrev load_net : Matcher → List Cell
load_net m =
    plain (ldx_mem word 1 6 (ip4_net_offset m.type)) ∷ plain (mov32_imm 2 (payload_u32 m 1)) ∷ []

full_mask :
    (op : MatcherOp) (a b mask : ℕ)
    → a < 2 ^ 32
    → b < 2 ^ 32
    → (mask == 0xffff_ffff) ≡ true
    → stays (mismatch_op op) a (s32 b % 2 ^ 32) ≡ eq_or_ne op (bit_and a mask) (bit_and b mask)
full_mask op a b mask ha hb e =
    let em = (==_iff mask 0xffff_ffff).0 e in
    let ea : bit_and a 0xffff_ffff ≡ a = bit_and-ones 32 a ha in
    let eb : bit_and b 0xffff_ffff ≡ b = bit_and-ones 32 b hb in
    rw (em, ea, eb) (stays-mismatch_mov op a b hb)

partial_mask :
    (op : MatcherOp) (a b mask : ℕ)
    → a < 2 ^ 32
    → b < 2 ^ 32
    → mask < 2 ^ 32
    → stays
        (mismatch_op op)
        (bit_and (a % 2 ^ 32) (s32 mask % 2 ^ 32 % 2 ^ 32))
        (bit_and (s32 b % 2 ^ 32 % 2 ^ 32) (s32 mask % 2 ^ 32 % 2 ^ 32))
      ≡ eq_or_ne op (bit_and a mask) (bit_and b mask)
partial_mask op a b mask ha hb hm =
    let ea : a % 2 ^ 32 ≡ a = omega arith in
    let eb : s32 b % 2 ^ 32 % 2 ^ 32 ≡ b = omega arith in
    let em : s32 mask % 2 ^ 32 % 2 ^ 32 ≡ mask = omega arith in
    rw (ea, eb, em) (stays-mismatch op (bit_and a mask) (bit_and b mask))

net-Decided :
    (k : Kernel) (m : Matcher) (s : Machine) {v : View}
    → view s ≡ v
    → Decided v
        (eq_or_ne m.op
          (bit_and (load word s.mem (address (s.reg 6) (ip4_net_offset m.type))) (ip4_mask m))
          (bit_and (payload_u32 m 1) (ip4_mask m)))
        (exec k (net_cells m) 0 s)
unfolding exec alu32
net-Decided k m s e = elim (Bool-cases (ip4_mask m == 0xffff_ffff)) [
  | inl full ↦ rw full (
      Decided-eq (full_mask m.op _ _ _ (load-lt word s.mem _) (payload_u32-lt m 1) full)
        (last_reg-Decided k (mismatch_op m.op) 1 2 (ran k (load_net m) s) e))
  | inr partial ↦ rw partial (
      Decided-eq
        (partial_mask m.op _ _ _ (load-lt word s.mem _) (payload_u32-lt m 1) (ip4_mask-lt m))
        (last_reg-Decided k (mismatch_op m.op) 1 2 (ran k (load_net m ++ mask_cells (ip4_mask m)) s)
          e))
]

body-Decided :
    (k : Kernel) (t : MatcherType) (m : Matcher) (s : Machine) {v : View}
    → view s ≡ v
    → m.type ≡ t
    → is_ip4_type t ≡ true
    → PointsTo l3_hdr v (s.reg 6)
    → Decided v (ip4_value_test t m v) (exec k (body_cells t m) 0 s)
body-Decided k ip4_saddr m s e et h e6 =
    Decided-eq (rw (et, field-header l3_hdr word 12 s e e6)) (addr-Decided k m s e)
body-Decided k ip4_daddr m s e et h e6 =
    Decided-eq (rw (et, field-header l3_hdr word 16 s e e6)) (addr-Decided k m s e)
body-Decided k ip4_proto m s e et h e6 =
    Decided-eq (rw (field-header l3_hdr byte 9 s e e6)) (proto-Decided k m s e)
body-Decided k ip4_snet m s e et h e6 =
    Decided-eq (rw (et, field-header l3_hdr word 12 s e e6)) (net-Decided k m s e)
body-Decided k ip4_dnet m s e et h e6 =
    Decided-eq (rw (et, field-header l3_hdr word 16 s e e6)) (net-Decided k m s e)
body-Decided k _ m s e et h e6 = cc

ip4-Decides :
    (k : Kernel) (m : Matcher) → is_ip4_type m.type ≡ true → Decides k (ip4_cells m) (ip4_test m)
unfolding exec
ip4-Decides k m h s =
    let load_hdr = plain (ldx_mem dword 6 10 (prog_ctx_off l3_hdr)) in
    guard_imm-Decided k jne 7 (htobe16 0x0800) (load_hdr ∷ body_cells m.type m) s refl
      (body-Decided k m.type m (ran k (load_hdr ∷ []) s) refl refl h refl)

body-linked : (t : MatcherType) (m : Matcher) → are_open (body_cells t m) ≡ true
body-linked ip4_saddr m = refl
body-linked ip4_daddr m = refl
body-linked ip4_proto m = refl
body-linked _ m = elim (Bool-cases (ip4_mask m == 0xffff_ffff)) [
  | inl full ↦ rw full
  | inr partial ↦ rw partial
]

body-short : (t : MatcherType) (m : Matcher) → 2 + length (body_cells t m) ≤ 8
body-short ip4_saddr m = omega arith
body-short ip4_daddr m = omega arith
body-short ip4_proto m = omega arith
body-short _ m = elim (Bool-cases (ip4_mask m == 0xffff_ffff)) [
  | inl full ↦ rw full (omega arith)
  | inr partial ↦ rw partial (omega arith)
]

-- The code of an IPv4 matcher matches the packets whose L3 protocol is ETH_P_IP and whose header
-- field compares to the payload as the operator says, under the mask of the prefix for a network.
-- There is memory enough.
pub matcher_generate_ip4-Implements :
    {env : Env} (k : Kernel) (m : Matcher)
    → IsAmple env
    → is_ip4_type m.type ≡ true
    → Implements env k 8 (matcher_generate_ip4 m) (ip4_test m)
matcher_generate_ip4-Implements k m ample h = record {
  cells = ip4_cells m;
  emits = ip4-Emits ample m h;
  linked = body-linked m.type m;
  short = omega (arith, body-short m.type m);
  decides = ip4-Decides k m h;
}
