-- ===== src/Cgen/Stub.antt =====
-- src/bpfilter/cgen/stub.c: the code that parses the headers of a packet, and what sets use of it.
use bpfilter_study.Base.{
  ℕ, List, Option, if◌then◌else◌, length, some, ◌+◌, ◌==◌, ◌∷◌, ◌/◌, htobe16, [], ◌^◌, none, s32,
  text,
}
use bpfilter_study.Insn.{
  Insn, ld_imm64_low, jmp_imm_insn, ld_imm64_top, mov64_reg, stx_mem, alu64_imm_insn, bpf_insn,
  byte, jeq, jne, mov64_imm, alu_add, ld_imm64, ldx_mem, alu_and, jge, ld_map_fd_high,
  alu64_reg_insn, alu_lsh, jmp_a_insn, emit_call, word, dword, mov32_imm, half, st_mem, exit_insn,
}
use bpfilter_study.Program.{
  M, PrinterMsg, Program, ElfstubId, ◌>>=◌, ◌>>◌, elfstub_parse_ipv6_nh, jmpctx_get, ok,
  program_emit, program_emit_fixup, elfstub_parse_ipv6_eh, err, skip, crash, emit_all,
  emit_load_fd_fixup, get_program, jmpctx_cleanup, program_emit_kfunc_call, emit_fixup_elfstub,
  elfstub_update_counters,
}
use bpfilter_study.Runtime.{
  RuntimeField, l3_size, l4_size, prog_ctx_off, l3_offset, l4_offset, prog_ctx_imm, arg, dynptr, l2,
  l4, l2_size, l2_hdr, l3_hdr, l4_hdr,
}
use Prim.Native.String.{String}
use bpfilter_study.Printer.{printer_add_msg}
use bpfilter_study.Swich.{swich_add_option, swich_init, swich_set_default, swich_generate}
use bpfilter_study.Fixup.{printer_map_fd, counters_map_fd}
use bpfilter_study.Cgen.Flavor.{ops_get_verdict}
use bpfilter_study.Chain.{accept}

-- `bf_program_error_counter_idx()`
unfoldable pub program_error_counter_idx : Program → ℕ
program_error_counter_idx p = length p.chain.rules + 1

-- EMIT_PRINT. A message that cannot be added is a dereference of NULL.
abbrev print_msg : PrinterMsg → M (Unit {0})
print_msg msg = do
  program_emit_fixup printer_map_fd (bpf_insn ld_imm64 1 2 0 0) 0
  program_emit (record ld_map_fd_high { imm = s32 msg.offset })
  program_emit (mov64_imm 2 msg.len)
  program_emit (emit_call 6)

abbrev add_msg_or_crash : Option (PrinterMsg × List PrinterMsg) → M PrinterMsg
add_msg_or_crash (some (msg, msgs)) env p = ok (msg, record p { printer = msgs })
add_msg_or_crash none env p = err crash

abbrev pub program_add_msg : List ℕ → M PrinterMsg
program_add_msg str env p = add_msg_or_crash (printer_add_msg env.alloc p.printer str) env p

unfoldable pub emit_print : List ℕ → M (Unit {0})
emit_print str = do msg ← program_add_msg str; print_msg msg

-- `if (bf_opts_is_verbose(BF_VERBOSE_BPF))`
abbrev pub print_if_verbose : List ℕ → M (Unit {0})
print_if_verbose str env p = if env.verbose then emit_print str env p else ok (tt, p)

-- The block that follows a failed call of a kernel function: count an error, accept the packet.
unfoldable pub quit_program : Insn → List ℕ → M (Unit {0})
quit_program jmp text = do
  j ← jmpctx_get jmp
  program_emit (mov64_reg 1 10)
  program_emit (alu64_imm_insn alu_add 1 (prog_ctx_imm arg))
  emit_load_fd_fixup counters_map_fd 2 0
  p ← get_program
  program_emit (mov32_imm 3 (program_error_counter_idx p))
  emit_fixup_elfstub elfstub_update_counters
  print_if_verbose text
  verdict ← ops_get_verdict accept
  program_emit (mov64_imm 0 verdict)
  program_emit exit_insn
  jmpctx_cleanup j

unfoldable pub stub_make_ctx_dynptr : ℕ → String → M (Unit {0})
stub_make_ctx_dynptr arg_reg kfunc = do
  if arg_reg == 1 then skip else program_emit (mov64_imm 1 arg_reg)
  program_emit (mov64_imm 2 0)
  program_emit (mov64_reg 3 10)
  program_emit (alu64_imm_insn alu_add 3 (prog_ctx_imm dynptr))
  program_emit_kfunc_call kfunc
  quit_program (jmp_imm_insn jeq 0 0 0) (text "failed to create a new dynamic pointer")

unfoldable pub stub_make_ctx_xdp_dynptr : ℕ → M (Unit {0})
stub_make_ctx_xdp_dynptr md_reg = stub_make_ctx_dynptr md_reg "bpf_dynptr_from_xdp"

unfoldable pub stub_make_ctx_skb_dynptr : ℕ → M (Unit {0})
stub_make_ctx_skb_dynptr skb_reg = stub_make_ctx_dynptr skb_reg "bpf_dynptr_from_skb"

-- sizeof(struct ethhdr) is 14, offsetof(struct ethhdr, h_proto) is 12.
unfoldable pub stub_parse_l2_ethhdr : M (Unit {0})
stub_parse_l2_ethhdr = do
  program_emit (mov64_reg 1 10)
  program_emit (alu64_imm_insn alu_add 1 (prog_ctx_imm dynptr))
  program_emit (mov64_imm 2 0)
  program_emit (mov64_reg 3 10)
  program_emit (alu64_imm_insn alu_add 3 (prog_ctx_imm l2))
  program_emit (mov64_imm 4 14)
  program_emit (stx_mem byte 10 4 (prog_ctx_off l2_size))
  program_emit_kfunc_call "bpf_dynptr_slice"
  quit_program (jmp_imm_insn jne 0 0 0) (text "failed to create L2 dynamic pointer slice")
  program_emit (stx_mem dword 10 0 (prog_ctx_off l2_hdr))
  program_emit (ldx_mem half 7 0 12)
  program_emit (st_mem word 10 (prog_ctx_off l3_offset) 14)

-- The size of the L3 header in r4, or 0 in r7.
unfoldable pub l3_swich : M (Unit {0})
l3_swich = do
  s ← swich_add_option (swich_init 7) (htobe16 0x0800) (mov64_imm 4 20 ∷ [])
  s ← swich_add_option s (htobe16 0x86dd) (mov64_imm 4 40 ∷ [])
  s ← swich_set_default s (mov64_imm 7 0 ∷ [])
  swich_generate s

-- The slice of the L3 or L4 header, of `r4` bytes at the offset in the context.
unfoldable pub slice_header : RuntimeField → RuntimeField → RuntimeField → M (Unit {0})
slice_header size offset buffer = do
  program_emit (stx_mem byte 10 4 (prog_ctx_off size))
  program_emit (mov64_reg 1 10)
  program_emit (alu64_imm_insn alu_add 1 (prog_ctx_imm dynptr))
  program_emit (ldx_mem word 2 10 (prog_ctx_off offset))
  program_emit (mov64_reg 3 10)
  program_emit (alu64_imm_insn alu_add 3 (prog_ctx_imm buffer))
  program_emit_kfunc_call "bpf_dynptr_slice"

-- The block for IPv4: the offset of the L4 header, and its protocol.
unfoldable pub parse_ip4 : M (Unit {0})
parse_ip4 = do
  j ← jmpctx_get (jmp_imm_insn jne 7 (htobe16 0x0800) 0)
  program_emit (ldx_mem byte 1 0 0)
  program_emit (alu64_imm_insn alu_and 1 0x0f)
  program_emit (alu64_imm_insn alu_lsh 1 2)
  program_emit (ldx_mem word 2 10 (prog_ctx_off l3_offset))
  program_emit (alu64_reg_insn alu_add 1 2)
  program_emit (stx_mem word 10 1 (prog_ctx_off l4_offset))
  program_emit (ldx_mem byte 8 0 9)
  jmpctx_cleanup j

-- `_BF_LOW_EH_BITMASK`
abbrev pub low_eh_bitmask : ℕ
low_eh_bitmask = 0x1801800000000801

-- The test for an extension header, which jumps behind its end if there is one.
abbrev pub extension_test : List Insn
extension_test =
    ld_imm64_low 2 low_eh_bitmask
    ∷ ld_imm64_top (low_eh_bitmask / 2 ^ 32)
    ∷ jmp_imm_insn jge 8 64 4
    ∷ mov64_imm 3 1
    ∷ alu64_reg_insn alu_lsh 3 8
    ∷ alu64_reg_insn alu_and 3 2
    ∷ jmp_imm_insn jne 3 0 4
    ∷ jmp_imm_insn jeq 8 135 3
    ∷ jmp_imm_insn jeq 8 139 2
    ∷ jmp_imm_insn jeq 8 140 1
    ∷ []

abbrev pub ipv6_elfstub : Program → ElfstubId
ipv6_elfstub p =
    if p.chain.flags.store_nexthdr then elfstub_parse_ipv6_nh else elfstub_parse_ipv6_eh

unfoldable pub process_extensions : M (Unit {0})
process_extensions = do
  program_emit (mov64_reg 1 10)
  program_emit (alu64_imm_insn alu_add 1 (prog_ctx_imm arg))
  p ← get_program
  emit_fixup_elfstub (ipv6_elfstub p)
  program_emit (mov64_reg 8 0)

-- The block for IPv6.
unfoldable pub parse_ip6 : M (Unit {0})
parse_ip6 = do
  j ← jmpctx_get (jmp_imm_insn jne 7 (htobe16 0x86dd) 0)
  program_emit (ldx_mem byte 8 0 6)
  tcpjmp ← jmpctx_get (jmp_imm_insn jeq 8 6 0)
  udpjmp ← jmpctx_get (jmp_imm_insn jeq 8 17 0)
  emit_all extension_test
  noehjmp ← jmpctx_get (jmp_a_insn 0)
  process_extensions
  ehjmp ← jmpctx_get (jmp_a_insn 0)
  jmpctx_cleanup tcpjmp
  jmpctx_cleanup udpjmp
  jmpctx_cleanup noehjmp
  program_emit (ldx_mem word 2 10 (prog_ctx_off l3_offset))
  program_emit (alu64_imm_insn alu_add 2 40)
  program_emit (stx_mem word 10 2 (prog_ctx_off l4_offset))
  jmpctx_cleanup ehjmp
  jmpctx_cleanup j

unfoldable pub stub_parse_l3_hdr : M (Unit {0})
stub_parse_l3_hdr = do
  l3_swich
  j ← jmpctx_get (jmp_imm_insn jeq 7 0 0)
  slice_header l3_size l3_offset l2
  quit_program (jmp_imm_insn jne 0 0 0) (text "failed to create L3 dynamic pointer slice")
  program_emit (stx_mem dword 10 0 (prog_ctx_off l3_hdr))
  parse_ip4
  parse_ip6
  jmpctx_cleanup j

-- The size of the L4 header in r4, or 0 in r8.
unfoldable pub l4_swich : M (Unit {0})
l4_swich = do
  s ← swich_add_option (swich_init 8) 6 (mov64_imm 4 20 ∷ [])
  s ← swich_add_option s 17 (mov64_imm 4 8 ∷ [])
  s ← swich_add_option s 1 (mov64_imm 4 8 ∷ [])
  s ← swich_add_option s 58 (mov64_imm 4 8 ∷ [])
  s ← swich_set_default s (mov64_imm 8 0 ∷ [])
  swich_generate s

unfoldable pub stub_parse_l4_hdr : M (Unit {0})
stub_parse_l4_hdr = do
  l4_swich
  j ← jmpctx_get (jmp_imm_insn jeq 8 0 0)
  slice_header l4_size l4_offset l4
  quit_program (jmp_imm_insn jne 0 0 0) (text "failed to create L4 dynamic pointer slice")
  program_emit (stx_mem dword 10 0 (prog_ctx_off l4_hdr))
  jmpctx_cleanup j
