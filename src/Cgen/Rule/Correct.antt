-- ===== src/Cgen/Rule/Correct.antt =====
-- What the code of a rule does.
use bpfilter_study.Base.{
  ℕ, Option, Bool, List, none, true, ◌++◌, if◌then◌else◌, not, some, ◌==◌, [], ◌≡◌, ◌∷◌, false,
  refl, sym, ap,
}
use bpfilter_study.Program.{
  Env, Program, program_emit_fixup_elfstub, skip, ok, M, lift, ◌>>=◌, ◌>>◌, program_emit,
}
use bpfilter_study.Chain.{
  Flavor, Rule, Verdict, continue, rule_mark_is_set, tc_flavor, cgroup_flavor, nf_flavor,
  xdp_flavor, accept, drop, rule_mark_get,
}
use bpfilter_study.Fixup.{Cell, elfstub_call, counters_map_fd}
use bpfilter_study.Program.Emits.{
  pending, IsAmple, IsSized, Emits, plain, Emits-if, Emits-pure, Emits->>, room-Emits, fixup-Emits,
  program_emit-Emits,
}
use bpfilter_study.Cgen.Flavor.{
  get_verdict, tc_gen_inline_set_mark, cgroup_gen_inline_set_mark, set_mark_op, tc_get_verdict,
  nf_get_verdict, xdp_get_verdict, cgroup_get_verdict,
}
use bpfilter_study.Cgen.Rule.{
  counter_code, log_code, ops_set_mark, exit_with, generate_mark, generate_actions, mark_for,
  verdict_code,
}
use bpfilter_study.Insn.{
  ldx_mem, mov64_imm, mov64_reg, dword, alu64_imm_insn, call_rel_insn, exit_insn, alu_add, stx_mem,
  word, ld_map_fd, ld_map_fd_high, mov32_imm,
}
use bpfilter_study.Program.At.{EmitsAt, at_flavor, at_of_Emits, at_then}
use bpfilter_study.Program.Blocks.{emit_then, load_fd-Emits}
use bpfilter_study.Runtime.{prog_ctx_off, arg, prog_ctx_imm}
use mathlib.Core.Path.{subst}

abbrev pub mark_cells : Rule → List Cell
mark_cells r =
    if rule_mark_is_set r
    then plain (ldx_mem dword 1 10 (prog_ctx_off arg))
      ∷ plain (mov64_imm 2 (rule_mark_get r))
      ∷ plain (stx_mem word 1 2 8)
      ∷ []
    else []

abbrev pub log_cells : Rule → List Cell
log_cells r =
    if r.log == 0
    then []
    else plain (mov64_reg 1 10)
      ∷ plain (alu64_imm_insn alu_add 1 (prog_ctx_imm arg))
      ∷ plain (mov64_imm 2 r.index)
      ∷ plain (mov64_imm 3 r.log)
      ∷ plain (mov64_reg 4 7)
      ∷ plain (mov64_reg 5 8)
      ∷ pending elfstub_call 3 (call_rel_insn 0)
      ∷ []

abbrev pub counter_cells : Rule → List Cell
counter_cells r =
    if r.counters
    then plain (mov64_reg 1 10)
      ∷ plain (alu64_imm_insn alu_add 1 (prog_ctx_imm arg))
      ∷ pending counters_map_fd 0 (ld_map_fd 2 0)
      ∷ plain ld_map_fd_high
      ∷ plain (mov32_imm 3 r.index)
      ∷ pending elfstub_call 2 (call_rel_insn 0)
      ∷ []
    else []

-- The value that the program returns for a verdict that ends it.
abbrev pub verdict_value : Flavor → Verdict → Option ℕ
verdict_value fl continue = none
verdict_value tc_flavor accept = some 0
verdict_value tc_flavor drop = some 2
verdict_value nf_flavor accept = some 1
verdict_value nf_flavor drop = some 0
verdict_value xdp_flavor accept = some 2
verdict_value xdp_flavor drop = some 1
verdict_value cgroup_flavor accept = some 1
verdict_value cgroup_flavor drop = some 0

abbrev exit_value : ℕ → M (Unit {0})
exit_value code = do program_emit (mov64_imm 0 code); program_emit exit_insn

abbrev pub verdict_cells : Option ℕ → List Cell
verdict_cells (some v) = plain (mov64_imm 0 v) ∷ plain exit_insn ∷ []
verdict_cells none = []

abbrev pub action_cells : Flavor → Rule → List Cell
action_cells fl r =
    mark_cells r ++ (log_cells r ++ (counter_cells r ++ verdict_cells (verdict_value fl r.verdict)))

-- The flavor can set the mark that the rule asks for.
abbrev pub can_mark : Flavor → Bool → Bool
can_mark tc_flavor b = true
can_mark cgroup_flavor b = true
can_mark _ b = not b

module _ {env : Env} (ample : IsAmple env) where
  elfstub-Emits :
      (n : ℕ)
      → Emits env (program_emit_fixup_elfstub n) (pending elfstub_call n (call_rel_insn 0) ∷ [])
  unfolding program_emit_fixup_elfstub
  elfstub-Emits n = Emits->> (room-Emits ample) (fixup-Emits ample elfstub_call (call_rel_insn 0) n)

  log-Emits : (r : Rule) → Emits env (if r.log == 0 then skip else log_code r) (log_cells r)
  log-Emits r = Emits-if (r.log == 0) (Emits-pure tt) (
      emit_then ample _ (
        emit_then ample _ (
          emit_then ample _
            (emit_then ample _ (emit_then ample _ (emit_then ample _ (elfstub-Emits 3)))))))

  counter-Emits :
      (r : Rule) → Emits env (if r.counters then counter_code r.index else skip) (counter_cells r)
  counter-Emits r =
      Emits-if r.counters
        (emit_then ample _ (
          emit_then ample _ (
            Emits->> (load_fd-Emits ample counters_map_fd 2 0)
              (emit_then ample _ (elfstub-Emits 2)))))
        (Emits-pure tt)

  set_mark-Emits :
      (fl : Flavor) (mark : ℕ)
      → can_mark fl true ≡ true
      → Emits env (ops_set_mark (set_mark_op fl) mark) (
          plain (ldx_mem dword 1 10 (prog_ctx_off arg))
          ∷ plain (mov64_imm 2 mark)
          ∷ plain (stx_mem word 1 2 8)
          ∷ [])
  unfolding tc_gen_inline_set_mark cgroup_gen_inline_set_mark
  set_mark-Emits tc_flavor mark h =
      emit_then ample _ (emit_then ample _ (program_emit-Emits ample _))
  set_mark-Emits cgroup_flavor mark h =
      emit_then ample _ (emit_then ample _ (program_emit-Emits ample _))
  set_mark-Emits _ mark h = cc

  mark-Emits :
      (fl : Flavor) (r : Rule) (b : Bool)
      → rule_mark_is_set r ≡ b
      → can_mark fl b ≡ true
      → Emits env (mark_for fl r) (mark_cells r)
  mark-Emits fl r true e h = rw (e) (set_mark-Emits fl (rule_mark_get r) h)
  mark-Emits fl r false e h = rw (e) (Emits-pure tt)

module _ {env : Env} {p : Program} (ample : IsAmple env) (s : IsSized p) where
  mark-EmitsAt :
      (r : Rule)
      → can_mark p.flavor (rule_mark_is_set r) ≡ true
      → EmitsAt env p (generate_mark r) (mark_cells r)
  mark-EmitsAt r h =
      at_flavor (λ fl. mark_for fl r) (at_of_Emits s (mark-Emits ample p.flavor r _ refl h))

  exit-EmitsAt :
      (v : Verdict) (code : ℕ)
      → get_verdict p.flavor v ≡ ok code
      → EmitsAt env p (exit_with v) (verdict_cells (some code))
  exit-EmitsAt v code h =
      at_flavor (λ fl. (λ env q. lift (get_verdict fl v) q) >>= exit_value)
        (subst (λ r. EmitsAt env p ((λ env q. lift r q) >>= exit_value) (verdict_cells (some code)))
          (sym h)
          (at_of_Emits s (emit_then ample (mov64_imm 0 code) (program_emit-Emits ample exit_insn))))

  verdict-EmitsAt :
      (fl : Flavor) (v : Verdict)
      → p.flavor ≡ fl
      → EmitsAt env p (verdict_code v) (verdict_cells (verdict_value fl v))
  unfolding tc_get_verdict nf_get_verdict xdp_get_verdict cgroup_get_verdict
  verdict-EmitsAt fl continue e = at_of_Emits s (Emits-pure tt)
  verdict-EmitsAt tc_flavor accept e = exit-EmitsAt accept 0 (ap (λ fl. get_verdict fl accept) e)
  verdict-EmitsAt tc_flavor drop e = exit-EmitsAt drop 2 (ap (λ fl. get_verdict fl drop) e)
  verdict-EmitsAt nf_flavor accept e = exit-EmitsAt accept 1 (ap (λ fl. get_verdict fl accept) e)
  verdict-EmitsAt nf_flavor drop e = exit-EmitsAt drop 0 (ap (λ fl. get_verdict fl drop) e)
  verdict-EmitsAt xdp_flavor accept e = exit-EmitsAt accept 2 (ap (λ fl. get_verdict fl accept) e)
  verdict-EmitsAt xdp_flavor drop e = exit-EmitsAt drop 1 (ap (λ fl. get_verdict fl drop) e)
  verdict-EmitsAt cgroup_flavor accept e =
      exit-EmitsAt accept 1 (ap (λ fl. get_verdict fl accept) e)
  verdict-EmitsAt cgroup_flavor drop e = exit-EmitsAt drop 0 (ap (λ fl. get_verdict fl drop) e)

  pub actions-EmitsAt :
      (r : Rule)
      → can_mark p.flavor (rule_mark_is_set r) ≡ true
      → EmitsAt env p (generate_actions r) (action_cells p.flavor r)
  unfolding generate_actions
  actions-EmitsAt r h = at_then (mark_cells r) _ (mark-EmitsAt r h) (
      at_then (log_cells r) _ (at_of_Emits s (log-Emits ample r)) (
        at_then (counter_cells r) _ (at_of_Emits s (counter-Emits ample r))
          (verdict-EmitsAt p.flavor r.verdict refl)))
