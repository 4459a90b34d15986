-- ===== src/Cgen/Flavor.antt =====
-- src/bpfilter/cgen/tc.c, nf.c, xdp.c and cgroup.c: what the hooks' flavors do for verdicts and
-- marks. Their prologues are in Cgen/Prologue.
use bpfilter_study.Base.{ℕ, Option, some, none}
use bpfilter_study.Chain.{
  Flavor, Verdict, tc_flavor, cgroup_flavor, nf_flavor, accept, xdp_flavor, drop, continue,
}
use bpfilter_study.Program.{
  M, Result, fail, lift, ◌>>◌, crash, ok, program_emit, err, ◌>>=◌, btf_get_field_off,
}
use bpfilter_study.Insn.{ldx_mem, dword, mov64_imm, word, stx_mem}
use bpfilter_study.Runtime.{prog_ctx_off, arg}

-- TC_ACT_OK and TC_ACT_SHOT. A verdict that is not terminal fails an assertion.
unfoldable pub tc_get_verdict : Verdict → Result ℕ
tc_get_verdict accept = ok 0
tc_get_verdict drop = ok 2
tc_get_verdict continue = err crash

-- NF_ACCEPT and NF_DROP
unfoldable pub nf_get_verdict : Verdict → Result ℕ
nf_get_verdict accept = ok 1
nf_get_verdict drop = ok 0
nf_get_verdict continue = err crash

-- XDP_PASS and XDP_DROP
unfoldable pub xdp_get_verdict : Verdict → Result ℕ
xdp_get_verdict accept = ok 2
xdp_get_verdict drop = ok 1
xdp_get_verdict continue = err crash

unfoldable pub cgroup_get_verdict : Verdict → Result ℕ
cgroup_get_verdict accept = ok 1
cgroup_get_verdict drop = ok 0
cgroup_get_verdict continue = err crash

-- `program->runtime.ops->get_verdict(verdict)`
abbrev pub get_verdict : Flavor → Verdict → Result ℕ
get_verdict tc_flavor v = tc_get_verdict v
get_verdict nf_flavor v = nf_get_verdict v
get_verdict xdp_flavor v = xdp_get_verdict v
get_verdict cgroup_flavor v = cgroup_get_verdict v

abbrev pub ops_get_verdict : Verdict → M ℕ
ops_get_verdict v env p = lift (get_verdict p.flavor v) p

-- offsetof(struct __sk_buff, mark) is 8.
unfoldable pub tc_gen_inline_set_mark : ℕ → M (Unit {0})
tc_gen_inline_set_mark mark = do
  program_emit (ldx_mem dword 1 10 (prog_ctx_off arg))
  program_emit (mov64_imm 2 mark)
  program_emit (stx_mem word 1 2 8)

unfoldable pub cgroup_gen_inline_set_mark : ℕ → M (Unit {0})
cgroup_gen_inline_set_mark mark = do
  program_emit (ldx_mem dword 1 10 (prog_ctx_off arg))
  program_emit (mov64_imm 2 mark)
  program_emit (stx_mem word 1 2 8)

-- The operation is NULL for nf and xdp.
abbrev pub set_mark_op : Flavor → Option (ℕ → M (Unit {0}))
set_mark_op tc_flavor = some tc_gen_inline_set_mark
set_mark_op cgroup_flavor = some cgroup_gen_inline_set_mark
set_mark_op _ = none

unfoldable pub tc_gen_inline_get_mark : ℕ → M (Unit {0})
tc_gen_inline_get_mark reg = do
  program_emit (ldx_mem dword 1 10 (prog_ctx_off arg))
  program_emit (ldx_mem word reg 1 8)

unfoldable pub cgroup_gen_inline_get_mark : ℕ → M (Unit {0})
cgroup_gen_inline_get_mark reg = do
  program_emit (ldx_mem dword 1 10 (prog_ctx_off arg))
  program_emit (ldx_mem word reg 1 8)

unfoldable pub nf_gen_inline_get_mark : ℕ → M (Unit {0})
nf_gen_inline_get_mark reg = do
  program_emit (ldx_mem dword 1 10 (prog_ctx_off arg))
  skb ← btf_get_field_off "bpf_nf_ctx" "skb"
  program_emit (ldx_mem dword 2 1 skb)
  mark ← btf_get_field_off "sk_buff" "mark"
  program_emit (ldx_mem word reg 2 mark)

-- The operation is NULL for xdp, and is called with no test.
abbrev pub get_mark_op : Flavor → ℕ → M (Unit {0})
get_mark_op tc_flavor reg = tc_gen_inline_get_mark reg
get_mark_op cgroup_flavor reg = cgroup_gen_inline_get_mark reg
get_mark_op nf_flavor reg = nf_gen_inline_get_mark reg
get_mark_op xdp_flavor reg = fail crash

abbrev pub ops_gen_inline_get_mark : ℕ → M (Unit {0})
ops_gen_inline_get_mark reg env p = get_mark_op p.flavor reg env p
