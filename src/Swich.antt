-- ===== src/Swich.antt =====
-- src/bpfilter/cgen/swich.c: the generator of a switch on a register.
use bpfilter_study.Base.{ℕ, List, [], Option, none, some, ◌∷◌, ◌+◌, ◌++◌, ◌*◌, length, ◌%◌, ◌^◌}
use bpfilter_study.Program.{
  M, pure, skip, ◌>>=◌, jmpctx_get, ◌>>◌, jmpctx_cleanup, malloc, emit_all,
}
use bpfilter_study.Insn.{Insn, jmp_a_insn, jmp_imm_insn, jeq}

-- struct bf_swich_option, without its jump, which `swich_generate` passes along
pub record SwichOption : Type 0 where
  pub imm : ℕ
  pub insns : List Insn

-- struct bf_swich
pub record Swich : Type 0 where
  pub reg : ℕ
  pub options : List SwichOption
  pub default_opt : Option SwichOption

-- sizeof(struct bf_swich_option) is 32.
unfoldable pub swich_option_new : ℕ → List Insn → M SwichOption
swich_option_new imm insns = do
  malloc (32 + 8 * length insns)
  pure (record { imm = imm % 2 ^ 32; insns = insns })

unfoldable pub swich_init : ℕ → Swich
swich_init reg = record { reg = reg; options = []; default_opt = none }

-- With a list node of 24 bytes.
unfoldable pub swich_add_option : Swich → ℕ → List Insn → M Swich
swich_add_option s imm insns = do
  option ← swich_option_new imm insns
  malloc 24
  pure (record s { options = s.options ++ option ∷ [] })

unfoldable pub swich_set_default : Swich → List Insn → M Swich
swich_set_default s insns = do
  option ← swich_option_new 0 insns
  pure (record s { default_opt = some option })

-- The four loops of `bf_swich_generate()`. Each gives the jumps that it has opened.
abbrev pub swich_compare : ℕ → List SwichOption → M (List ℕ)
swich_compare reg [] = pure []
swich_compare reg (o ∷ os) = do
  jmp ← jmpctx_get (jmp_imm_insn jeq reg o.imm 0)
  jmps ← swich_compare reg os
  pure (jmp ∷ jmps)

abbrev pub swich_bodies : List ℕ → List SwichOption → M (List ℕ)
swich_bodies (jmp ∷ jmps) (o ∷ os) = do
  jmpctx_cleanup jmp
  emit_all o.insns
  jmp' ← jmpctx_get (jmp_a_insn 0)
  jmps' ← swich_bodies jmps os
  pure (jmp' ∷ jmps')
swich_bodies _ _ = pure []

abbrev pub cleanup_all : List ℕ → M (Unit {0})
cleanup_all [] = skip
cleanup_all (jmp ∷ jmps) = do jmpctx_cleanup jmp; cleanup_all jmps

abbrev pub swich_with_default : Swich → SwichOption → M (Unit {0})
swich_with_default s d = do
  jmps ← swich_compare s.reg s.options
  jmp ← jmpctx_get (jmp_a_insn 0)
  ends ← swich_bodies jmps s.options
  jmpctx_cleanup jmp
  emit_all d.insns
  cleanup_all ends

abbrev pub swich_without_default : Swich → M (Unit {0})
swich_without_default s = do
  jmps ← swich_compare s.reg s.options
  ends ← swich_bodies jmps s.options
  cleanup_all ends

unfoldable pub swich_generate : Swich → M (Unit {0})
swich_generate s = elim s.default_opt [
  | some d ↦ swich_with_default s d
  | none ↦ swich_without_default s
]
