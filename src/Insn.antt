-- ===== src/Insn.antt =====
-- `struct bpf_insn`, and the macros by which the generator writes instructions
-- (src/external/include/filter.h). The opcode byte is kept decoded; `off` is a 16-bit pattern and
-- `imm` a 32-bit one, so a negative value stands as its two's complement.
use bpfilter_study.Base.{ℕ, s32}

-- BPF_B, BPF_H, BPF_W, BPF_DW
pub data Size : Type 0 where
  byte half word dword : Size

-- The `alu_` prefix keeps them apart from the operators of the prelude.
pub data AluOp : Type 0 where
  alu_add alu_sub alu_and alu_or alu_lsh alu_mov : AluOp

pub data JmpOp : Type 0 where
  jeq jne jgt jge jlt : JmpOp

pub data Opcode : Type 0 where
  ldx stx st : Size → Opcode
  alu64_reg alu64_imm alu32_reg alu32_imm : AluOp → Opcode
  bswap : Opcode
  jmp_reg jmp_imm : JmpOp → Opcode
  jmp_a call call_rel call_kfunc exit : Opcode
  ld_imm64 ld_imm64_high : Opcode

pub record Insn : Type 0 where
  pub code : Opcode
  pub dst_reg : ℕ
  pub src_reg : ℕ
  pub off : ℕ
  pub imm : ℕ

abbrev pub bpf_insn : Opcode → ℕ → ℕ → ℕ → ℕ → Insn
bpf_insn code dst src off imm = record {
  code = code;
  dst_reg = dst;
  src_reg = src;
  off = off;
  imm = s32 imm;
}

abbrev pub ldx_mem : Size → ℕ → ℕ → ℕ → Insn
ldx_mem size dst src off = bpf_insn (ldx size) dst src off 0

abbrev pub stx_mem : Size → ℕ → ℕ → ℕ → Insn
stx_mem size dst src off = bpf_insn (stx size) dst src off 0

abbrev pub st_mem : Size → ℕ → ℕ → ℕ → Insn
st_mem size dst off imm = bpf_insn (st size) dst 0 off imm

abbrev pub mov64_imm : ℕ → ℕ → Insn
mov64_imm dst imm = bpf_insn (alu64_imm alu_mov) dst 0 0 imm

abbrev pub mov32_imm : ℕ → ℕ → Insn
mov32_imm dst imm = bpf_insn (alu32_imm alu_mov) dst 0 0 imm

abbrev pub mov64_reg : ℕ → ℕ → Insn
mov64_reg dst src = bpf_insn (alu64_reg alu_mov) dst src 0 0

abbrev pub alu64_imm_insn : AluOp → ℕ → ℕ → Insn
alu64_imm_insn op dst imm = bpf_insn (alu64_imm op) dst 0 0 imm

abbrev pub alu64_reg_insn : AluOp → ℕ → ℕ → Insn
alu64_reg_insn op dst src = bpf_insn (alu64_reg op) dst src 0 0

abbrev pub alu32_imm_insn : AluOp → ℕ → ℕ → Insn
alu32_imm_insn op dst imm = bpf_insn (alu32_imm op) dst 0 0 imm

abbrev pub alu32_reg_insn : AluOp → ℕ → ℕ → Insn
alu32_reg_insn op dst src = bpf_insn (alu32_reg op) dst src 0 0

abbrev pub bswap16 : ℕ → Insn
bswap16 dst = bpf_insn bswap dst 0 0 16

abbrev pub jmp_imm_insn : JmpOp → ℕ → ℕ → ℕ → Insn
jmp_imm_insn op dst imm off = bpf_insn (jmp_imm op) dst 0 off imm

abbrev pub jmp_reg_insn : JmpOp → ℕ → ℕ → ℕ → Insn
jmp_reg_insn op dst src off = bpf_insn (jmp_reg op) dst src off 0

abbrev pub jmp_a_insn : ℕ → Insn
jmp_a_insn off = bpf_insn jmp_a 0 0 off 0

abbrev pub emit_call : ℕ → Insn
emit_call func = bpf_insn call 0 0 0 func

-- BPF_PSEUDO_CALL and BPF_PSEUDO_KFUNC_CALL
abbrev pub call_rel_insn : ℕ → Insn
call_rel_insn target = bpf_insn call_rel 0 1 0 target

abbrev pub call_kfunc_insn : ℕ → Insn
call_kfunc_insn id = bpf_insn call_kfunc 0 2 0 id

abbrev pub exit_insn : Insn
exit_insn = bpf_insn exit 0 0 0 0

-- The two halves of BPF_LD_MAP_FD: BPF_PSEUDO_MAP_FD is 1.
abbrev pub ld_map_fd : ℕ → ℕ → Insn
ld_map_fd dst fd = bpf_insn ld_imm64 dst 1 0 fd

abbrev pub ld_map_fd_high : Insn
ld_map_fd_high = bpf_insn ld_imm64_high 0 0 0 0

-- The two halves of BPF_LD_IMM64.
abbrev pub ld_imm64_low : ℕ → ℕ → Insn
ld_imm64_low dst imm = bpf_insn ld_imm64 dst 0 0 imm

abbrev pub ld_imm64_top : ℕ → Insn
ld_imm64_top imm = bpf_insn ld_imm64_high 0 0 0 imm
