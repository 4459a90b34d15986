-- ===== src/Cgen/Resolve.antt =====
-- src/bpfilter/cgen/program.c: the resolution of fixups.
pub mod Correct
use bpfilter_study.Base.{
  ℕ, List, get_or, if◌then◌else◌, ◌==◌, modify, ◌∷◌, ◌&&◌, ◌+◌, ◌^◌, ltb, ◌-◌, ◌||◌, ◌%◌, leb,
  get_elem?, some, none, false, [], true,
}
use bpfilter_study.Fixup.{
  Fixup, FixupType, FixupInsn, fixup_off, same_type, fixup_imm, jmp_next_rule, counters_map_fd,
  printer_map_fd, log_map_fd, set_map_fd, elfstub_call,
}
use bpfilter_study.Insn.{Insn, exit_insn}
use bpfilter_study.Program.{Program, M, Result, err, ok, crash, enoent, einval}

abbrev pub insn_at : Program → ℕ → Insn
insn_at p n = get_or p.img n exit_insn

abbrev pub write_insn : ℕ → Insn → M (Unit {0})
write_insn n i env p = ok (tt, record p { img = modify p.img n (λ _. i) })

-- `_bf_program_fixup_insn()` with a value given as the 32-bit pattern of an int32_t. The
-- assertions are `!insn->off`, `value < SHRT_MAX` and `!insn->imm`.
unfoldable pub program_fixup_insn : Insn → FixupInsn → ℕ → Result Insn
program_fixup_insn i fixup_off value =
    if (i.off == 0) && (ltb value 32767 || leb (2 ^ 31) value)
    then ok (record i { off = value % 2 ^ 16 })
    else err crash
program_fixup_insn i fixup_imm value =
    if i.imm == 0 then ok (record i { imm = value }) else err crash

-- What a fixup writes, and where. The cast to `int` keeps the low 32 bits.
abbrev pub fixup_value : FixupType → Program → Fixup → Result (FixupInsn × ℕ)
fixup_value jmp_next_rule p f = ok (fixup_off, (p.img_size + 2 ^ 64 - f.insn - 1) % 2 ^ 32)
fixup_value counters_map_fd p f = ok (fixup_imm, p.cmap_fd)
fixup_value printer_map_fd p f = ok (fixup_imm, p.pmap_fd)
fixup_value log_map_fd p f = ok (fixup_imm, p.lmap_fd)
fixup_value set_map_fd p f = elim (get_elem? p.sets f.attr) [
  | some fd ↦ ok (fixup_imm, fd)
  | none ↦ err enoent
]
fixup_value elfstub_call p f =
    let offset = (p.elfstubs_location f.attr + 2 ^ 64 - f.insn - 1) % 2 ^ 64 in
    if ltb offset 2147483647 then ok (fixup_imm, offset) else err einval

abbrev pub write_fixup : Fixup → Program → Result (FixupInsn × ℕ) → Result Program
write_fixup f p (err e) = err e
write_fixup f p (ok (where_to, value)) =
    elim (program_fixup_insn (insn_at p f.insn) where_to value) [
      | err e ↦ err e
      | ok i ↦ ok (record p { img = modify p.img f.insn (λ _. i) })
    ]

abbrev pub resolve_one : Fixup → Program → Result Program
resolve_one f p = write_fixup f p (fixup_value f.type p f)

-- The loop of `_bf_program_fixup()`: the fixups of the type are resolved and leave the list.
abbrev pub keep : Fixup → Result (List Fixup × Program) → Result (List Fixup × Program)
keep f (ok (fs, p)) = ok (f ∷ fs, p)
keep f (err e) = err e

unfoldable pub fixup_loop : FixupType → List Fixup → Program → Result (List Fixup × Program)
fixup_loop t [] p = ok ([], p)
fixup_loop t (f ∷ fs) p = elim (same_type t f.type) [
  | false ↦ keep f (fixup_loop t fs p)
  | true ↦ elim (resolve_one f p) [ ok p' ↦ fixup_loop t fs p' | err e ↦ err e ]
]

unfoldable pub program_fixup : FixupType → M (Unit {0})
program_fixup t env p = elim (fixup_loop t p.fixups p) [
  | ok (fs, p') ↦ ok (tt, record p' { fixups = fs })
  | err e ↦ err e
]
