-- ===== src/Cgen/Meta/Iface.antt =====
-- What the code of a matcher on the interface tests.
use bpfilter_study.Base.{ℕ, Bool, ◌==◌, ◌<◌, ◌^◌, arith, ◌∷◌, refl, []}
use bpfilter_study.Matcher.{Matcher, payload_u32, op_eq}
use bpfilter_study.Machine.Decides.{View, Decides, to_next, Decided-eq, last_imm-Decided}
use bpfilter_study.Machine.{exec, Kernel, load, address, ran}
use bpfilter_study.Cgen.Meta.{matcher_generate_meta_iface}
use bpfilter_study.Program.{Env}
use bpfilter_study.Program.Emits.{IsAmple, plain}
use bpfilter_study.Insn.{half, ldx_mem, jmp_imm_insn, jne}
use bpfilter_study.Runtime.{prog_ctx_off, ifindex}
use bpfilter_study.Cgen.Implements.{Implements, stays-mismatch_imm}
use bpfilter_study.Program.Blocks.{emit_then, next_rule_last}

-- The lower half of the index of the interface in the runtime context.
abbrev pub low_ifindex : View → ℕ
low_ifindex v = load half v.mem (address v.frame (prog_ctx_off ifindex))

abbrev pub iface_test : Matcher → View → Bool
iface_test m v = low_ifindex v == payload_u32 m 0

iface-Decides :
    (k : Kernel) (m : Matcher)
    → payload_u32 m 0 < 2 ^ 31
    → Decides k
        (plain (ldx_mem half 1 10 (prog_ctx_off ifindex))
          ∷ to_next (jmp_imm_insn jne 1 (payload_u32 m 0) 0)
          ∷ [])
        (iface_test m)
unfolding exec
iface-Decides k m h s = Decided-eq (stays-mismatch_imm op_eq _ _ h) (
    last_imm-Decided k jne 1 (payload_u32 m 0)
      (ran k (plain (ldx_mem half 1 10 (prog_ctx_off ifindex)) ∷ []) s) refl)

-- The code of a matcher on the interface matches the packets whose interface index, cut to its
-- lower 16 bits, is the payload, for an index below 2 ^ 31. There is memory enough.
pub matcher_generate_meta_iface-Implements :
    {env : Env} (k : Kernel) (m : Matcher)
    → IsAmple env
    → payload_u32 m 0 < 2 ^ 31
    → Implements env k 8 (matcher_generate_meta_iface m) (iface_test m)
unfolding matcher_generate_meta_iface
matcher_generate_meta_iface-Implements k m ample h = record {
  cells = _;
  short = omega arith;
  emits = emit_then ample _ (next_rule_last ample _);
  linked = refl;
  decides = iface-Decides k m h;
}
