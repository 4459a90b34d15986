-- ===== src/Fixup.antt =====
-- src/bpfilter/cgen/fixup.h: what is still to be written into an emitted instruction.
use bpfilter_study.Base.{ℕ, Bool, true, false}
use bpfilter_study.Insn.{Insn}
use bpfilter_study.Base.{Option}

-- enum bf_fixup_insn
pub data FixupInsn : Type 0 where
  fixup_off fixup_imm : FixupInsn

-- enum bf_fixup_type
pub data FixupType : Type 0 where
  jmp_next_rule counters_map_fd printer_map_fd log_map_fd set_map_fd elfstub_call : FixupType

-- `type == fixup->type`
unfoldable pub same_type : FixupType → FixupType → Bool
same_type jmp_next_rule jmp_next_rule = true
same_type counters_map_fd counters_map_fd = true
same_type printer_map_fd printer_map_fd = true
same_type log_map_fd log_map_fd = true
same_type set_map_fd set_map_fd = true
same_type elfstub_call elfstub_call = true
same_type _ _ = false

-- `attr` is the union of a set's index and an ELF stub's id.
pub record Fixup : Type 0 where
  pub type : FixupType
  pub insn : ℕ
  pub attr : ℕ

-- An instruction with the fixup that is pending on it, if any: its type and attribute.
pub record Cell : Type 0 where
  pub insn : Insn
  pub pending : Option (FixupType × ℕ)
