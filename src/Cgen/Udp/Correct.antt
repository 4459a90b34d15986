-- ===== src/Cgen/Udp/Correct.antt =====
-- What the code of a UDP matcher tests.
use bpfilter_study.Base.{List, Bool, ◌≡◌, ◌==◌, true, ◌&&◌, false, arith, ◌∷◌}
use bpfilter_study.Program.{Env}
use bpfilter_study.Matcher.{Matcher, MatcherType, MatcherOp, udp_sport, udp_dport}
use bpfilter_study.Program.Emits.{IsAmple, Emits, Emits->>, plain}
use bpfilter_study.Machine.{Kernel}
use bpfilter_study.Machine.Decides.{View, to_next}
use bpfilter_study.Fixup.{Cell}
use bpfilter_study.Cgen.Udp.{
  matcher_generate_udp, matcher_generate_udp_port, udp_by_type, udp_port_offset,
}
use bpfilter_study.Cgen.Compare.Correct.{
  takes_port, l4-Decides, port_test, load_l4_header-Emits, header_port-Decided, port_cells,
  compare_port-Emits, port-linked, port-short,
}
use bpfilter_study.Cgen.Implements.{Implements, header_field}
use bpfilter_study.Insn.{jmp_imm_insn, jne, ldx_mem, dword, half}
use bpfilter_study.Runtime.{l4_hdr, prog_ctx_off}
use bpfilter_study.Program.Blocks.{emit_then}

abbrev udp_cells : Matcher → List Cell
udp_cells m =
    to_next (jmp_imm_insn jne 8 17 0)
    ∷ plain (ldx_mem dword 6 10 (prog_ctx_off l4_hdr))
    ∷ plain (ldx_mem half 1 6 (udp_port_offset m.type))
    ∷ port_cells m.op m

-- The types and operators of UDP matchers.
abbrev pub is_udp : MatcherType → MatcherOp → Bool
is_udp udp_sport op = takes_port op
is_udp udp_dport op = takes_port op
is_udp _ op = false

abbrev pub udp_test : Matcher → View → Bool
udp_test m v =
    v.l4_proto == 17 && port_test m.op m (header_field l4_hdr half v (udp_port_offset m.type))

module _ {env : Env} (ample : IsAmple env) where
  port-Emits :
      (m : Matcher)
      → takes_port m.op ≡ true
      → Emits env
          (matcher_generate_udp_port m)
          (plain (ldx_mem half 1 6 (udp_port_offset m.type)) ∷ port_cells m.op m)
  unfolding matcher_generate_udp_port
  port-Emits m h = emit_then ample _ (compare_port-Emits ample m.op m h)

  body-Emits :
      (t : MatcherType) (m : Matcher)
      → is_udp t m.op ≡ true
      → Emits env
          (udp_by_type t m)
          (plain (ldx_mem half 1 6 (udp_port_offset m.type)) ∷ port_cells m.op m)
  body-Emits udp_sport m h = port-Emits m h
  body-Emits udp_dport m h = port-Emits m h
  body-Emits _ m h = cc

  udp-Emits :
      (m : Matcher) → is_udp m.type m.op ≡ true → Emits env (matcher_generate_udp m) (udp_cells m)
  unfolding matcher_generate_udp
  udp-Emits m h = Emits->> (load_l4_header-Emits ample 17) (body-Emits m.type m h)

-- The code of a UDP matcher matches the packets whose L4 protocol is UDP and whose port compares
-- to the payload as the operator says, for the operators that the matcher takes. There is memory
-- enough.
pub matcher_generate_udp-Implements :
    {env : Env} (k : Kernel) (m : Matcher)
    → IsAmple env
    → is_udp m.type m.op ≡ true
    → Implements env k 8 (matcher_generate_udp m) (udp_test m)
matcher_generate_udp-Implements k m ample h = record {
  cells = udp_cells m;
  emits = udp-Emits ample m h;
  linked = port-linked m.op m;
  short = omega (arith, port-short m.op m);
  decides =
      l4-Decides k 17 _ _ (omega arith)
        (λ s v e. header_port-Decided k (udp_port_offset m.type) m s e);
}
