-- ===== src/Cgen/Prologue.antt =====
-- The prologues of src/bpfilter/cgen/tc.c, nf.c, xdp.c and cgroup.c.
use bpfilter_study.Base.{ℕ, Bool, if◌then◌else◌, true, false, htobe16, ◌∷◌, []}
use bpfilter_study.Chain.{
  Flavor, Hook, tc_flavor, nf_flavor, xdp_flavor, cgroup_flavor, nf_pre_routing, nf_local_in,
  nf_forward,
}
use bpfilter_study.Program.{
  M, Program, skip, ◌>>=◌, ◌>>◌, btf_get_field_off, program_emit, get_program,
}
use Prim.Native.String.{String}
use bpfilter_study.Cgen.Stub.{
  stub_parse_l3_hdr, stub_parse_l4_hdr, stub_make_ctx_skb_dynptr, stub_make_ctx_xdp_dynptr,
  stub_parse_l2_ethhdr,
}
use bpfilter_study.Swich.{swich_add_option, swich_init, swich_set_default, swich_generate}
use bpfilter_study.Insn.{
  ldx_mem, byte, dword, mov64_imm, word, alu64_imm_insn, alu64_reg_insn, st_mem, stx_mem, alu_add,
  alu_sub,
}
use bpfilter_study.Runtime.{prog_ctx_off, ifindex, l3_offset, pkt_size}

abbrev pub parse_headers : M (Unit {0})
parse_headers = do stub_parse_l3_hdr; stub_parse_l4_hdr

-- offsetof(struct __sk_buff, len) is 0.
unfoldable pub tc_gen_inline_prologue : M (Unit {0})
tc_gen_inline_prologue = do
  program_emit (ldx_mem word 3 1 0)
  program_emit (stx_mem dword 10 3 (prog_ctx_off pkt_size))
  off ← btf_get_field_off "__sk_buff" "ifindex"
  program_emit (ldx_mem word 2 1 off)
  program_emit (stx_mem word 10 2 (prog_ctx_off ifindex))
  stub_make_ctx_skb_dynptr 1
  stub_parse_l2_ethhdr
  parse_headers

-- struct xdp_md has `data` at 0, `data_end` at 4 and `ingress_ifindex` at 12.
unfoldable pub xdp_gen_inline_prologue : M (Unit {0})
xdp_gen_inline_prologue = do
  program_emit (ldx_mem word 2 1 0)
  program_emit (ldx_mem word 3 1 4)
  program_emit (alu64_reg_insn alu_sub 3 2)
  program_emit (stx_mem dword 10 3 (prog_ctx_off pkt_size))
  program_emit (ldx_mem word 2 1 12)
  program_emit (stx_mem word 10 2 (prog_ctx_off ifindex))
  stub_make_ctx_xdp_dynptr 1
  stub_parse_l2_ethhdr
  parse_headers

-- The L3 protocol from the address family: AF_INET is 2, AF_INET6 is 10.
unfoldable pub family_swich : ℕ → M (Unit {0})
family_swich reg = do
  s ← swich_add_option (swich_init reg) 2 (mov64_imm 7 (htobe16 0x0800) ∷ [])
  s ← swich_add_option s 10 (mov64_imm 7 (htobe16 0x86dd) ∷ [])
  s ← swich_set_default s (mov64_imm 7 0 ∷ [])
  swich_generate s

unfoldable pub cgroup_gen_inline_prologue : M (Unit {0})
cgroup_gen_inline_prologue = do
  program_emit (ldx_mem word 3 1 0)
  program_emit (alu64_imm_insn alu_add 3 14)
  program_emit (stx_mem dword 10 3 (prog_ctx_off pkt_size))
  off ← btf_get_field_off "__sk_buff" "ifindex"
  program_emit (ldx_mem word 2 1 off)
  program_emit (stx_mem word 10 2 (prog_ctx_off ifindex))
  offset ← btf_get_field_off "__sk_buff" "family"
  program_emit (ldx_mem word 2 1 offset)
  family_swich 2
  program_emit (st_mem word 10 (prog_ctx_off l3_offset) 0)
  stub_make_ctx_skb_dynptr 1
  parse_headers

-- `_bf_nf_hook_is_ingress()`
unfoldable pub nf_hook_is_ingress : Hook → Bool
nf_hook_is_ingress nf_pre_routing = true
nf_hook_is_ingress nf_local_in = true
nf_hook_is_ingress nf_forward = true
nf_hook_is_ingress _ = false

-- The field of the hook's state that holds the interface.
abbrev pub nf_device : Program → String
nf_device p = if nf_hook_is_ingress p.chain.hook then "in" else "out"

-- The index of the interface.
abbrev pub nf_interface : M (Unit {0})
nf_interface = do
  offset ← btf_get_field_off "bpf_nf_ctx" "state"
  program_emit (ldx_mem dword 2 1 offset)
  p ← get_program
  offset ← btf_get_field_off "nf_hook_state" (nf_device p)
  program_emit (ldx_mem dword 3 2 offset)
  offset ← btf_get_field_off "net_device" "ifindex"
  program_emit (ldx_mem word 4 3 offset)
  program_emit (stx_mem word 10 4 (prog_ctx_off ifindex))

abbrev pub nf_pkt_size : M (Unit {0})
nf_pkt_size = do
  offset ← btf_get_field_off "bpf_nf_ctx" "skb"
  program_emit (ldx_mem dword 1 1 offset)
  offset ← btf_get_field_off "sk_buff" "len"
  program_emit (ldx_mem word 2 1 offset)
  program_emit (alu64_imm_insn alu_add 2 14)
  program_emit (stx_mem dword 10 2 (prog_ctx_off pkt_size))

unfoldable pub nf_gen_inline_prologue : M (Unit {0})
nf_gen_inline_prologue = do
  nf_interface
  offset ← btf_get_field_off "nf_hook_state" "pf"
  program_emit (ldx_mem byte 3 2 offset)
  family_swich 3
  program_emit (st_mem word 10 (prog_ctx_off l3_offset) 0)
  nf_pkt_size
  stub_make_ctx_skb_dynptr 1
  parse_headers

-- `program->runtime.ops->gen_inline_prologue(program)`
abbrev pub prologue_op : Flavor → M (Unit {0})
prologue_op tc_flavor = tc_gen_inline_prologue
prologue_op nf_flavor = nf_gen_inline_prologue
prologue_op xdp_flavor = xdp_gen_inline_prologue
prologue_op cgroup_flavor = cgroup_gen_inline_prologue

abbrev pub ops_gen_inline_prologue : M (Unit {0})
ops_gen_inline_prologue env p = prologue_op p.flavor env p

-- The epilogues of all four do nothing.
abbrev pub ops_gen_inline_epilogue : M (Unit {0})
ops_gen_inline_epilogue = skip
