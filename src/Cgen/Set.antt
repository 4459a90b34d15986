-- ===== src/Cgen/Set.antt =====
-- src/bpfilter/cgen/matcher/set.c, and the functions of src/bpfilter/cgen/stub.c that it uses.
use bpfilter_study.Base.{
  ℕ, List, Option, if◌then◌else◌, ◌%◌, get_elem?, suc, ◌∷◌, ◌==◌, some, ◌&&◌, none, ◌+◌, [], leb,
  ◌-◌, zero, htobe16,
}
use bpfilter_study.Program.{
  M, fail, skip, ◌>>=◌, ◌>>◌, einval, emit_load_fd_fixup, enoent, ok, program_emit, crash,
  emit_fixup_jmp_next_rule,
}
use bpfilter_study.Matcher.{
  Matcher, MatcherType, ip4_snet, ip4_dnet, payload_u32, ip6_snet, ip6_dnet,
}
use bpfilter_study.Matcher.Metas.{MatcherMeta, matcher_get_meta, no_layer, layer_3, layer_4}
use bpfilter_study.Insn.{
  Size, mov64_imm, ldx_mem, stx_mem, mov64_reg, word, alu64_imm_insn, dword, alu_add, half, byte,
  emit_call, jmp_imm_insn, jeq, jne,
}
use bpfilter_study.Chain.{Set, chain_get_set_for_matcher}
use bpfilter_study.Fixup.{set_map_fd}
use bpfilter_study.Runtime.{prog_scr_off, prog_scr_imm, prog_ctx_off, l3_hdr, l4_hdr}
use bpfilter_study.Machine.{size_bytes}

unfoldable pub stub_rule_check_protocol : MatcherMeta → M (Unit {0})
stub_rule_check_protocol meta = elim meta.layer [
  | no_layer ↦ fail einval
  | layer_3 ↦ emit_fixup_jmp_next_rule (jmp_imm_insn jne 7 (htobe16 meta.hdr_id) 0)
  | layer_4 ↦ emit_fixup_jmp_next_rule (jmp_imm_insn jne 8 (meta.hdr_id % 256) 0)
]

unfoldable pub stub_load_header : MatcherMeta → ℕ → M (Unit {0})
stub_load_header meta reg = elim meta.layer [
  | no_layer ↦ fail einval
  | layer_3 ↦ program_emit (ldx_mem dword reg 10 (prog_ctx_off l3_hdr))
  | layer_4 ↦ program_emit (ldx_mem dword reg 10 (prog_ctx_off l4_hdr))
]

-- The size of the next copy, in `bpf_size` and in bytes.
abbrev pub copy_size : ℕ → ℕ → Size
copy_size offset remaining =
    if (offset % 8 == 0) && leb 8 remaining
    then dword
    else if (offset % 4 == 0) && leb 4 remaining
    then word
    else if (offset % 2 == 0) && leb 2 remaining
    then half
    else byte

-- The loop of `bf_stub_stx_payload()`. A turn copies at least one byte, so the remaining size is
-- fuel enough.
abbrev pub copy_payload : ℕ → ℕ → ℕ → ℕ → ℕ → M (Unit {0})
copy_payload zero offset remaining src dst = skip
copy_payload (suc fuel) offset remaining src dst = if remaining == 0 then skip else do
  program_emit (ldx_mem (copy_size offset remaining) 1 6 src)
  program_emit (stx_mem (copy_size offset remaining) 10 1 (prog_scr_off dst))
  copy_payload fuel offset (remaining - size_bytes (copy_size offset remaining))
      (src + size_bytes (copy_size offset remaining))
      (dst + size_bytes (copy_size offset remaining))

unfoldable pub stub_stx_payload : MatcherMeta → ℕ → M (Unit {0})
stub_stx_payload meta offset =
    copy_payload meta.hdr_payload_size offset meta.hdr_payload_size meta.hdr_payload_offset offset

-- `bf_chain_get_set_for_matcher(program->runtime.chain, matcher)`
abbrev pub program_get_set : Matcher → M (Option Set)
program_get_set m env p = ok (chain_get_set_for_matcher p.chain m, p)

abbrev ip4_trie_key : ℕ → M (Unit {0})
ip4_trie_key offset = do
  program_emit (mov64_imm 1 32)
  program_emit (stx_mem word 10 1 (prog_scr_off 4))
  program_emit (ldx_mem word 1 6 offset)
  program_emit (stx_mem word 10 1 (prog_scr_off 8))

abbrev ip6_trie_key : ℕ → M (Unit {0})
ip6_trie_key offset = do
  program_emit (mov64_imm 1 128)
  program_emit (stx_mem word 10 1 (prog_scr_off 4))
  program_emit (ldx_mem dword 1 6 offset)
  program_emit (stx_mem dword 10 1 (prog_scr_off 8))
  program_emit (ldx_mem dword 1 6 (offset + 8))
  program_emit (stx_mem dword 10 1 (prog_scr_off 16))

-- The key of the trie: the prefix length of a whole address, then the address.
abbrev pub store_trie_key : MatcherType → ℕ → M (Unit {0})
store_trie_key ip4_snet offset = ip4_trie_key offset
store_trie_key ip4_dnet offset = ip4_trie_key offset
store_trie_key ip6_snet offset = ip6_trie_key offset
store_trie_key ip6_dnet offset = ip6_trie_key offset
store_trie_key _ offset = fail einval

-- The look-up of the key at the index of the scratch area, and the jump if there is none.
-- BPF_FUNC_map_lookup_elem is 1.
unfoldable pub lookup_key : Matcher → ℕ → M (Unit {0})
lookup_key m index = do
  emit_load_fd_fixup set_map_fd 1 (payload_u32 m 0)
  program_emit (mov64_reg 2 10)
  program_emit (alu64_imm_insn alu_add 2 (prog_scr_imm index))
  program_emit (emit_call 1)
  emit_fixup_jmp_next_rule (jmp_imm_insn jeq 0 0 0)

abbrev pub trie_of_meta : MatcherType → MatcherMeta → Matcher → M (Unit {0})
trie_of_meta type meta m = do
  stub_rule_check_protocol meta
  stub_load_header meta 6
  store_trie_key type meta.hdr_payload_offset
  lookup_key m 4

-- The key and its type's entry are read with no test.
unfoldable pub matcher_generate_set_trie : Matcher → Set → M (Unit {0})
matcher_generate_set_trie m s = elim (get_elem? s.key 0) [
  | none ↦ fail crash
  | some type ↦ elim (matcher_get_meta type) [
    | none ↦ fail crash
    | some meta ↦ trie_of_meta type meta m
  ]
]

unfoldable pub check_protocols : List MatcherType → M (Unit {0})
check_protocols [] = skip
check_protocols (t ∷ ts) = elim (matcher_get_meta t) [
  | none ↦ fail enoent
  | some meta ↦ stub_rule_check_protocol meta >> check_protocols ts
]

-- The loop that builds the key, from an offset of the scratch area on.
unfoldable pub build_key : ℕ → List MatcherType → M (Unit {0})
build_key offset [] = skip
build_key offset (t ∷ ts) = elim (matcher_get_meta t) [
  | none ↦ fail enoent
  | some meta ↦
      stub_load_header meta 6
      >> (stub_stx_payload meta offset >> build_key (offset + meta.hdr_payload_size) ts)
]

abbrev pub hash_of_key : Matcher → List MatcherType → M (Unit {0})
hash_of_key m key = do check_protocols key; build_key 0 key; lookup_key m 0

abbrev pub set_by_kind : Matcher → Option Set → M (Unit {0})
set_by_kind m none = fail enoent
set_by_kind m (some s) = if s.use_trie then matcher_generate_set_trie m s else hash_of_key m s.key

unfoldable pub matcher_generate_set : Matcher → M (Unit {0})
matcher_generate_set m = do s ← program_get_set m; set_by_kind m s
