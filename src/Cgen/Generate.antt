-- ===== src/Cgen/Generate.antt =====
-- src/bpfilter/cgen/program.c: the stubs at the end of a program, and the whole program.
use bpfilter_study.Base.{
  ℕ, List, Option, if◌then◌else◌, length, ◌==◌, ◌∷◌, some, ◌+◌, [], none, s32,
}
use bpfilter_study.Chain.{Chain}
use bpfilter_study.Program.{
  M, PrinterMsg, Program, Elfstub, PrintkStr, ok, program_emit, ◌>>=◌, ◌>>◌, emit_load_fd_fixup,
  fail, get_program, skip, enoent, here, emit_all, add_fixup,
}
use bpfilter_study.Fixup.{Fixup, log_map_fd, same_type, elfstub_call, printer_map_fd}
use bpfilter_study.Insn.{stx_mem, bpf_insn, dword, ld_imm64, ld_map_fd_high, mov64_imm}
use bpfilter_study.Cgen.Resolve.{write_insn, program_fixup}
use bpfilter_study.Cgen.Rule.{counter_code, exit_with, program_generate_rules}
use bpfilter_study.Cgen.Prologue.{ops_gen_inline_prologue, ops_gen_inline_epilogue}
use bpfilter_study.Runtime.{prog_ctx_off, arg, ipv6_eh, log_map}
use bpfilter_study.Cgen.Stub.{program_add_msg}

-- The messages of a stub, which starts at `start`: the instruction that loads one is written over.
abbrev pub place_msg : ℕ → PrinterMsg → M (Unit {0})
place_msg n msg = do
  write_insn n (bpf_insn ld_imm64 1 2 0 0)
  write_insn (n + 1) (record ld_map_fd_high { imm = s32 msg.offset })
  add_fixup printer_map_fd n 0

unfoldable pub place_msgs : ℕ → List PrintkStr → M (Unit {0})
place_msgs start [] = skip
place_msgs start (s ∷ ss) = do
  msg ← program_add_msg s.str
  place_msg (start + s.insn_idx) msg
  place_msgs start ss

abbrev pub set_location : ℕ → ℕ → M (Unit {0})
set_location id off env p =
    ok (tt, record p { elfstubs_location = λ n. if n == id then off else p.elfstubs_location n })

abbrev pub place_elfstub : ℕ → Option Elfstub → M (Unit {0})
place_elfstub id none = fail enoent
place_elfstub id (some stub) = do
  off ← here
  emit_all stub.insns
  place_msgs off stub.strs
  set_location id off

-- Only generate each ELF stub once.
abbrev pub generate_elfstub : ℕ → M (Unit {0})
generate_elfstub id env p =
    if p.elfstubs_location id == 0 then place_elfstub id (env.elfstub id) env p else ok (tt, p)

-- The loop of `_bf_program_generate_elfstubs()`. The fixups that it adds are none of its own.
unfoldable pub elfstub_loop : List Fixup → M (Unit {0})
elfstub_loop [] = skip
elfstub_loop (f ∷ fs) =
    (if same_type f.type elfstub_call then generate_elfstub f.attr else skip) >> elfstub_loop fs

unfoldable pub program_generate_elfstubs : M (Unit {0})
program_generate_elfstubs env p = elfstub_loop p.fixups env p

-- The argument into the context, and no protocol in r7 and r8.
abbrev pub start_code : M (Unit {0})
start_code = do
  program_emit (stx_mem dword 10 1 (prog_ctx_off arg))
  program_emit (mov64_imm 7 0)
  program_emit (mov64_imm 8 0)

abbrev pub load_log_map : M (Unit {0})
load_log_map = do
  emit_load_fd_fixup log_map_fd 2 0
  program_emit (stx_mem dword 10 2 (prog_ctx_off log_map))

abbrev pub clear_ipv6_eh : M (Unit {0})
clear_ipv6_eh = program_emit (stx_mem dword 10 7 (prog_ctx_off ipv6_eh))

-- `bf_program_chain_counter_idx()`
unfoldable pub program_chain_counter_idx : Program → ℕ
program_chain_counter_idx p = length p.chain.rules

-- The chain's policy, behind all rules.
abbrev pub policy_code : Chain → M (Unit {0})
policy_code c = do p ← get_program; counter_code (program_chain_counter_idx p); exit_with c.policy

unfoldable pub generate_chain : Chain → M (Unit {0})
generate_chain c = do
  start_code
  if c.flags.logs then load_log_map else skip
  if c.flags.store_nexthdr then clear_ipv6_eh else skip
  ops_gen_inline_prologue
  program_generate_rules c.rules
  ops_gen_inline_epilogue
  policy_code c
  program_generate_elfstubs
  program_fixup elfstub_call

unfoldable pub program_generate : M (Unit {0})
program_generate env p = generate_chain p.chain env p
