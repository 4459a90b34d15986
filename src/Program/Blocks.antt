-- ===== src/Program/Blocks.antt =====
-- The rules of `Emits` for the instructions of a `do` block, one at a time.
use bpfilter_study.Base.{ℕ, List, [], ◌∷◌}
use bpfilter_study.Insn.{Insn, ld_map_fd, ld_map_fd_high}
use bpfilter_study.Fixup.{FixupType, jmp_next_rule, Cell}
use bpfilter_study.Machine.Decides.{to_next}
use bpfilter_study.Program.{
  Env, M, ◌>>◌, program_emit, emit_fixup_jmp_next_rule, emit_load_fd_fixup,
}
use bpfilter_study.Program.Emits.{
  plain, pending, IsAmple, Emits, Emits->>, program_emit-Emits, program_emit_fixup-Emits,
}

module _ {env : Env} (ample : IsAmple env) where
  pub emit_then :
      {A : Type 0} (i : Insn) {k : M A} {cs : List Cell}
      → Emits env k cs
      → Emits env (program_emit i >> k) (plain i ∷ cs)
  emit_then i e = Emits->> (program_emit-Emits ample i) e

  pub next_rule_then :
      {A : Type 0} (i : Insn) {k : M A} {cs : List Cell}
      → Emits env k cs
      → Emits env (emit_fixup_jmp_next_rule i >> k) (to_next i ∷ cs)
  next_rule_then i e = Emits->> (program_emit_fixup-Emits ample jmp_next_rule i 0) e

  pub next_rule_last : (i : Insn) → Emits env (emit_fixup_jmp_next_rule i) (to_next i ∷ [])
  next_rule_last i = program_emit_fixup-Emits ample jmp_next_rule i 0

  pub load_fd-Emits :
      (t : FixupType) (r a : ℕ)
      → Emits env
          (emit_load_fd_fixup t r a)
          (pending t a (ld_map_fd r 0) ∷ plain ld_map_fd_high ∷ [])
  load_fd-Emits t r a =
      Emits->> (program_emit_fixup-Emits ample t (ld_map_fd r 0) a)
        (program_emit-Emits ample ld_map_fd_high)
