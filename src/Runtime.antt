-- ===== src/Runtime.antt =====
-- src/bpfilter/cgen/runtime.h: `struct bf_runtime`, which lies 240 bytes below the frame pointer.
use bpfilter_study.Base.{ℕ, ◌+◌, ◌-◌, ◌^◌}

pub data RuntimeField : Type 0 where
  arg dynptr log_map pkt_size ipv6_eh l2_size l3_size l4_size l3_offset l4_offset ifindex l2_hdr
        l3_hdr l4_hdr l2 l3 l4 scratch :
      RuntimeField

-- offsetof(struct bf_runtime, field)
abbrev pub offset_of : RuntimeField → ℕ
offset_of arg = 0
offset_of dynptr = 8
offset_of log_map = 24
offset_of pkt_size = 32
offset_of ipv6_eh = 40
offset_of l2_size = 41
offset_of l3_size = 42
offset_of l4_size = 43
offset_of l3_offset = 48
offset_of l4_offset = 56
offset_of ifindex = 64
offset_of l2_hdr = 72
offset_of l3_hdr = 80
offset_of l4_hdr = 88
offset_of l2 = 96
offset_of l3 = 112
offset_of l4 = 152
offset_of scratch = 176

-- sizeof(struct bf_runtime)
abbrev pub runtime_size : ℕ
runtime_size = 240

-- BF_PROG_CTX_OFF(field), as the 16-bit offset of a memory access and as a 32-bit immediate.
abbrev pub prog_ctx_off : RuntimeField → ℕ
prog_ctx_off f = 2 ^ 16 - runtime_size + offset_of f

abbrev pub prog_ctx_imm : RuntimeField → ℕ
prog_ctx_imm f = 2 ^ 32 - runtime_size + offset_of f

-- BF_PROG_SCR_OFF(index)
abbrev pub prog_scr_off : ℕ → ℕ
prog_scr_off i = 2 ^ 16 - runtime_size + 176 + i

abbrev pub prog_scr_imm : ℕ → ℕ
prog_scr_imm i = 2 ^ 32 - runtime_size + 176 + i
