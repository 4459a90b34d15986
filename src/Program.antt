-- ===== src/Program.antt =====
-- src/bpfilter/cgen/program.c and program.h: the program under generation and the operations that
-- append to it; jmp.c: jumps over code that is still to come.
--
-- `img` holds the `img_size` instructions written so far; `img_cap` is the room allocated. What
-- the code takes from elsewhere, such as whether an allocation succeeds, is the environment. An
-- error ends a generator; the program is then thrown away by its callers.
pub mod At
pub mod Blocks
pub mod Capacity
pub mod Emits
pub mod Extends
use Prim.Native.String.{String}
use bpfilter_study.Base.{
  ℕ, suc, ◌+◌, ◌-◌, ◌*◌, ◌/◌, ◌%◌, ◌^◌, bit_or, Bool, true, false, Option, none, some, List, [],
  ◌∷◌, ◌++◌, ◌==◌, if◌then◌else◌, modify,
}
use bpfilter_study.Insn.{Insn, call_kfunc_insn, call_rel_insn, ld_map_fd, ld_map_fd_high}
use bpfilter_study.Fixup.{
  FixupType, jmp_next_rule, counters_map_fd, log_map_fd, set_map_fd, elfstub_call, Fixup,
}
use bpfilter_study.Chain.{Chain, Flavor}

-- A message of a stub: the instruction that loads it, and its text.
pub record PrintkStr : Type 0 where
  pub insn_idx : ℕ
  pub str : List ℕ

-- struct bf_elfstub
pub record Elfstub : Type 0 where
  pub insns : List Insn
  pub strs : List PrintkStr

-- struct bf_printer_msg
pub record PrinterMsg : Type 0 where
  pub offset : ℕ
  pub len : ℕ
  pub str : List ℕ

-- struct bf_program, without what only names, pins or attaches it. A map stands by its file
-- descriptor. `elfstubs_location` gives 0 for a stub that is not there yet.
pub record Program : Type 0 where
  pub flavor : Flavor
  pub printer : List PrinterMsg
  pub cmap_fd : ℕ
  pub pmap_fd : ℕ
  pub lmap_fd : ℕ
  pub sets : List ℕ
  pub elfstubs_location : ℕ → ℕ
  pub img_null : Bool
  pub img : List Insn
  pub img_size : ℕ
  pub img_cap : ℕ
  pub fixups : List Fixup
  pub chain : Chain

-- `crash` is a failed assertion or a dereference of NULL.
pub data Error : Type 0 where
  enomem einval enoent enotsup crash : Error

pub data Result (A : Type 0) : Type 0 where
  ok : A → Result A
  err : Error → Result A

-- `alloc n`: an allocation of `n` bytes succeeds. `verbose` is `bf_opts_is_verbose(BF_VERBOSE_BPF)`.
-- The others are look-ups in the kernel's type information and in the stubs of the context.
pub record Env : Type 0 where
  pub alloc : ℕ → Bool
  pub verbose : Bool
  pub btf_id : String → Result ℕ
  pub btf_field_off : String → String → Result ℕ
  pub elfstub : ℕ → Option Elfstub

abbrev pub M : Type 0 → Type 0
M A = Env → Program → Result (A × Program)

abbrev pub pure : {A : Type 0} → A → M A
pure a env p = ok (a, p)

abbrev pub skip : M (Unit {0})
skip = pure tt

abbrev pub fail : {A : Type 0} → Error → M A
fail e env p = err e

-- The run of a continuation on a result.
abbrev pub with_result :
    {A B : Type 0}
    → Result (A × Program)
    → (A → Program → Result (B × Program))
    → Result (B × Program)
with_result (ok (a, p)) f = f a p
with_result (err e) f = err e

infixl 5 ◌>>=◌ ◌>>◌
abbrev pub ◌>>=◌ : {A B : Type 0} → M A → (A → M B) → M B
◌>>=◌ m f env p = with_result (m env p) (λ a. f a env)

abbrev pub ◌>>◌ : {B : Type 0} → M (Unit {0}) → M B → M B
m >> k = m >>= λ _. k

abbrev pub lift : {A : Type 0} → Result A → Program → Result (A × Program)
lift (ok a) p = ok (a, p)
lift (err e) p = err e

-- `_bf_round_next_power_of_2()` on a 64-bit size.
abbrev pub or_shift : ℕ → ℕ → ℕ
or_shift v k = bit_or v (v / 2 ^ k)

unfoldable pub round_next_power_of_2 : ℕ → ℕ
round_next_power_of_2 v =
    let v = (v + 2 ^ 64 - 1) % 2 ^ 64 in
    let v = or_shift v 1 in
    let v = or_shift v 2 in
    let v = or_shift v 4 in let v = or_shift v 8 in let v = or_shift v 16 in (v + 1) % 2 ^ 64

-- The room after a call of `bf_program_grow_img()`.
unfoldable pub grown_cap : Program → ℕ
grown_cap p = if p.img_null then 64 else round_next_power_of_2 (p.img_cap * 2 % 2 ^ 64)

-- sizeof(struct bpf_insn) is 8.
unfoldable pub program_grow_img : M (Unit {0})
program_grow_img env p =
    if env.alloc (grown_cap p * 8)
    then ok (tt, record p { img_null = false; img_cap = grown_cap p })
    else err enomem

abbrev pub make_room : M (Unit {0})
make_room env p = if p.img_size == p.img_cap then program_grow_img env p else ok (tt, p)

abbrev pub append_insn : Insn → Program → Program
append_insn i p = record p { img = p.img ++ i ∷ []; img_size = p.img_size + 1 }

unfoldable pub program_emit : Insn → M (Unit {0})
program_emit i = do make_room; λ env p. ok (tt, append_insn i p)

-- `bf_fixup_new()`, 24 bytes, with an unchecked allocation, then a list node, 24 bytes.
unfoldable pub add_fixup : FixupType → ℕ → ℕ → M (Unit {0})
add_fixup type at attr env p =
    if env.alloc 24
    then ok
        (tt, record p { fixups = p.fixups ++ record { type = type; insn = at; attr = attr } ∷ [] })
    else err crash

abbrev pub here : M ℕ
here env p = ok (p.img_size, p)

unfoldable pub program_emit_fixup : FixupType → Insn → ℕ → M (Unit {0})
program_emit_fixup type i attr = do make_room; at ← here; add_fixup type at attr; program_emit i

unfoldable pub program_emit_fixup_elfstub : ℕ → M (Unit {0})
program_emit_fixup_elfstub id = do
  make_room
  at ← here
  add_fixup elfstub_call at id
  program_emit (call_rel_insn 0)

unfoldable pub program_emit_kfunc_call : String → M (Unit {0})
program_emit_kfunc_call name = do
  id ← λ env. lift (env.btf_id name)
  program_emit (call_kfunc_insn id)

-- EMIT_FIXUP_JMP_NEXT_RULE, EMIT_LOAD_COUNTERS_FD_FIXUP, EMIT_LOAD_LOG_FD_FIXUP and
-- EMIT_LOAD_SET_FD_FIXUP
abbrev pub emit_fixup_jmp_next_rule : Insn → M (Unit {0})
emit_fixup_jmp_next_rule i = program_emit_fixup jmp_next_rule i 0

abbrev pub emit_load_fd_fixup : FixupType → ℕ → ℕ → M (Unit {0})
emit_load_fd_fixup type reg attr = do
  program_emit_fixup type (ld_map_fd reg 0) attr
  program_emit ld_map_fd_high

-- bf_jmpctx_get(): emits the jump and returns its index.
unfoldable pub jmpctx_get : Insn → M ℕ
jmpctx_get i = do idx ← here; program_emit i; pure idx

abbrev pub set_off : ℕ → Insn → Insn
set_off off i = record i { off = off % 2 ^ 16 }

-- bf_jmpctx_cleanup(): the jump goes to what is emitted next. An offset above SHRT_MAX gives a
-- warning only.
unfoldable pub jmpctx_cleanup : ℕ → M (Unit {0})
jmpctx_cleanup idx env p =
    ok
      (tt, record p { img = modify p.img idx (set_off ((p.img_size + 2 ^ 64 - idx - 1) % 2 ^ 64)) })

abbrev pub malloc : ℕ → M (Unit {0})
malloc n env p = if env.alloc n then ok (tt, p) else err enomem

abbrev pub btf_get_field_off : String → String → M ℕ
btf_get_field_off struct field env = lift (env.btf_field_off struct field)

abbrev pub get_program : M Program
get_program env p = ok (p, p)

-- A list of instructions in order.
abbrev pub emit_all : List Insn → M (Unit {0})
emit_all [] = skip
emit_all (i ∷ is) = do program_emit i; emit_all is

-- enum bf_elfstub_id
pub data ElfstubId : Type 0 where
  elfstub_parse_ipv6_eh elfstub_parse_ipv6_nh elfstub_update_counters elfstub_log : ElfstubId

abbrev pub elfstub_number : ElfstubId → ℕ
elfstub_number elfstub_parse_ipv6_eh = 0
elfstub_number elfstub_parse_ipv6_nh = 1
elfstub_number elfstub_update_counters = 2
elfstub_number elfstub_log = 3

-- EMIT_FIXUP_ELFSTUB
abbrev pub emit_fixup_elfstub : ElfstubId → M (Unit {0})
emit_fixup_elfstub id = program_emit_fixup_elfstub (elfstub_number id)
