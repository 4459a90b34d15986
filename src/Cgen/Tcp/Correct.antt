-- ===== src/Cgen/Tcp/Correct.antt =====
-- What the code of a TCP matcher tests.
use bpfilter_study.Base.{
  length, ◌≤◌, ℕ, ◌<◌, Bool, List, ◌==◌, ◌^◌, not, true, ◌≡◌, ◌&&◌, bit_and, false, s32, ◌%◌, arith,
  ◌∷◌, [], sext32, refl,
}
use bpfilter_study.Program.{Env}
use bpfilter_study.Matcher.{
  Matcher, MatcherOp, MatcherType, payload_u8, op_eq, tcp_sport, op_any, op_ne, tcp_dport, op_all,
  tcp_flags, payload_u8-lt,
}
use bpfilter_study.Machine.{alu32, exec, Kernel, Machine, ran, load-lt}
use bpfilter_study.Program.Emits.{IsAmple, Emits, plain, Emits->>}
use bpfilter_study.Machine.Decides.{View, to_next, view, Decided, Decided-eq, last_imm-Decided}
use bpfilter_study.Fixup.{Cell}
use bpfilter_study.Cgen.Tcp.{
  matcher_generate_tcp, matcher_generate_tcp_port, matcher_generate_tcp_flags, compare_flags,
  tcp_by_type, tcp_port_offset,
}
use bpfilter_study.Cgen.Compare.Correct.{
  takes_port, l4-Decides, load_l4_header-Emits, port_test, compare_port-Emits, port_cells,
  value_cells, value-Decided, header_port-Decided, port-linked, port-short,
}
use bpfilter_study.Cgen.Implements.{Implements, header_field, eq_or_ne, PointsTo, field-header}
use bpfilter_study.Insn.{
  alu_and, alu32_imm_insn, jmp_imm_insn, ldx_mem, byte, jne, dword, half, jeq,
}
use bpfilter_study.Runtime.{l4_hdr, prog_ctx_off}
use bpfilter_study.Program.Blocks.{emit_then, next_rule_last}
use bpfilter_study.Machine.Link.{are_open}

abbrev flags_cells : MatcherOp → ℕ → List Cell
flags_cells op_any flags =
    plain (alu32_imm_insn alu_and 1 flags) ∷ to_next (jmp_imm_insn jeq 1 0 0) ∷ []
flags_cells op_all flags =
    plain (alu32_imm_insn alu_and 1 flags) ∷ to_next (jmp_imm_insn jne 1 flags 0) ∷ []
flags_cells op flags = value_cells op flags

-- The flags are equal, different, some of those asked for, or all of them.
abbrev pub flags_test : MatcherOp → ℕ → ℕ → Bool
flags_test op_any flags x = not (bit_and x flags == 0)
flags_test op_all flags x = bit_and x flags == flags
flags_test op flags x = eq_or_ne op x flags

abbrev pub takes_flags : MatcherOp → Bool
takes_flags op_eq = true
takes_flags op_ne = true
takes_flags op_any = true
takes_flags op_all = true
takes_flags _ = false

-- The operators that each TCP matcher takes.
abbrev pub is_tcp : MatcherType → MatcherOp → Bool
is_tcp tcp_sport op = takes_port op
is_tcp tcp_dport op = takes_port op
is_tcp tcp_flags op = takes_flags op
is_tcp _ op = false

abbrev body_cells : MatcherType → Matcher → List Cell
body_cells tcp_flags m = plain (ldx_mem byte 1 6 13) ∷ flags_cells m.op (payload_u8 m)
body_cells t m = plain (ldx_mem half 1 6 (tcp_port_offset m.type)) ∷ port_cells m.op m

abbrev tcp_cells : Matcher → List Cell
tcp_cells m =
    to_next (jmp_imm_insn jne 8 6 0)
    ∷ plain (ldx_mem dword 6 10 (prog_ctx_off l4_hdr))
    ∷ body_cells m.type m

abbrev pub tcp_value_test : MatcherType → Matcher → View → Bool
tcp_value_test tcp_flags m v = flags_test m.op (payload_u8 m) (header_field l4_hdr byte v 13)
tcp_value_test t m v = port_test m.op m (header_field l4_hdr half v (tcp_port_offset m.type))

abbrev pub tcp_test : Matcher → View → Bool
tcp_test m v = v.l4_proto == 6 && tcp_value_test m.type m v

module _ {env : Env} (ample : IsAmple env) where
  flags-Emits :
      (op : MatcherOp) (flags : ℕ)
      → takes_flags op ≡ true
      → Emits env (compare_flags op flags) (flags_cells op flags)
  flags-Emits op_eq flags h = next_rule_last ample _
  flags-Emits op_ne flags h = next_rule_last ample _
  flags-Emits op_any flags h = emit_then ample _ (next_rule_last ample _)
  flags-Emits op_all flags h = emit_then ample _ (next_rule_last ample _)
  flags-Emits _ flags h = cc

  body-Emits :
      (t : MatcherType) (m : Matcher)
      → is_tcp t m.op ≡ true
      → Emits env (tcp_by_type t m) (body_cells t m)
  unfolding matcher_generate_tcp_port matcher_generate_tcp_flags
  body-Emits tcp_sport m h = emit_then ample _ (compare_port-Emits ample m.op m h)
  body-Emits tcp_dport m h = emit_then ample _ (compare_port-Emits ample m.op m h)
  body-Emits tcp_flags m h = emit_then ample _ (flags-Emits m.op _ h)
  body-Emits _ m h = cc

  tcp-Emits :
      (m : Matcher) → is_tcp m.type m.op ≡ true → Emits env (matcher_generate_tcp m) (tcp_cells m)
  unfolding matcher_generate_tcp
  tcp-Emits m h = Emits->> (load_l4_header-Emits ample 6) (body-Emits m.type m h)

-- The flags that the source keeps in a byte.
masked-flags :
    (x flags : ℕ) → x < 2 ^ 8 → flags < 2 ^ 8 → alu32 alu_and x (s32 flags) ≡ bit_and x flags
unfolding alu32
masked-flags x flags hx hf =
    let ex : x % 2 ^ 32 ≡ x = omega arith in
    let ef : s32 flags % 2 ^ 32 ≡ flags = omega arith in rw (ex, ef)

flags-Decided :
    (k : Kernel) (op : MatcherOp) (flags : ℕ) (s : Machine) {v : View}
    → view s ≡ v
    → s.reg 1 < 2 ^ 8
    → flags < 2 ^ 8
    → Decided v (flags_test op flags (s.reg 1)) (exec k (flags_cells op flags) 0 s)
unfolding exec
flags-Decided k op_any flags s e hx hf =
    Decided-eq (rw (masked-flags _ flags hx hf))
      (last_imm-Decided k jeq 1 0 (ran k (plain (alu32_imm_insn alu_and 1 flags) ∷ []) s) e)
flags-Decided k op_all flags s e hx hf =
    let ef : sext32 (s32 flags) ≡ flags = ground arith in
    Decided-eq (rw (masked-flags _ flags hx hf, ef))
      (last_imm-Decided k jne 1 flags (ran k (plain (alu32_imm_insn alu_and 1 flags) ∷ []) s) e)
flags-Decided k op flags s e hx hf = value-Decided k op flags s e (omega arith)

body-Decided :
    (k : Kernel) (t : MatcherType) (m : Matcher) (s : Machine) {v : View}
    → view s ≡ v
    → is_tcp t m.op ≡ true
    → PointsTo l4_hdr v (s.reg 6)
    → Decided v (tcp_value_test t m v) (exec k (body_cells t m) 0 s)
unfolding exec
body-Decided k tcp_sport m s e h e6 = header_port-Decided k (tcp_port_offset m.type) m s e e6
body-Decided k tcp_dport m s e h e6 = header_port-Decided k (tcp_port_offset m.type) m s e e6
body-Decided k tcp_flags m s e h e6 = Decided-eq (rw (field-header l4_hdr byte 13 s e e6)) (
    flags-Decided k m.op (payload_u8 m) (ran k (plain (ldx_mem byte 1 6 13) ∷ []) s) e
      (load-lt byte s.mem _) (payload_u8-lt m))
body-Decided k _ m s e h e6 = cc

flags-linked : (op : MatcherOp) (flags : ℕ) → are_open (flags_cells op flags) ≡ true
flags-linked op_any flags = refl
flags-linked op_all flags = refl
flags-linked _ flags = refl

body-linked : (t : MatcherType) (m : Matcher) → are_open (body_cells t m) ≡ true
body-linked tcp_flags m = flags-linked m.op (payload_u8 m)
body-linked _ m = port-linked m.op m

flags-short : (op : MatcherOp) (flags : ℕ) → length (flags_cells op flags) ≤ 2
flags-short op_any flags = omega arith
flags-short op_all flags = omega arith
flags-short _ flags = omega arith

body-short : (t : MatcherType) (m : Matcher) → length (body_cells t m) ≤ 4
body-short tcp_flags m = omega (arith, flags-short m.op (payload_u8 m))
body-short _ m = omega (arith, port-short m.op m)

-- The code of a TCP matcher matches the packets whose L4 protocol is TCP and whose port or flags
-- compare to the payload as the operator says, for the operators that the matcher takes. There is
-- memory enough.
pub matcher_generate_tcp-Implements :
    {env : Env} (k : Kernel) (m : Matcher)
    → IsAmple env
    → is_tcp m.type m.op ≡ true
    → Implements env k 8 (matcher_generate_tcp m) (tcp_test m)
matcher_generate_tcp-Implements k m ample h = record {
  cells = tcp_cells m;
  emits = tcp-Emits ample m h;
  linked = body-linked m.type m;
  short = omega (arith, body-short m.type m);
  decides =
      l4-Decides k 6 (body_cells m.type m) (tcp_value_test m.type m) (omega arith)
        (λ s v e. body-Decided k m.type m s e h);
}
