-- ===== src/Cgen/Implements.antt =====
-- What it means that a generator implements a test of the packet.
use mathlib.Core.Path.{subst}
use bpfilter_study.Base.{
  length, ◌≤◌, ℕ, ◌%◌, ◌^◌, ◌<◌, ◌≡◌, sym, Bool, not, List, ◌==◌, if◌then◌else◌, inl, inr,
  Bool-cases, s32, sext32, arith, ap, true,
}
use bpfilter_study.Runtime.{RuntimeField, prog_ctx_off}
use bpfilter_study.Insn.{JmpOp, jne, jeq, Size, dword}
use bpfilter_study.Fixup.{Cell}
use bpfilter_study.Machine.{Kernel, load, address, Machine}
use bpfilter_study.Machine.Decides.{View, Decides, stays, view}
use bpfilter_study.Matcher.{MatcherOp, is_eq}
use bpfilter_study.Program.{Env, M}
use bpfilter_study.Program.Emits.{Emits}
use bpfilter_study.Machine.Link.{are_open}

-- The generator appends code of at most `n` instructions, and the code falls through on the packets that pass the test and
-- goes to the next rule on the others; only jumps with no offset wait for the next rule.
pub record Implements (env : Env) (k : Kernel) (n : ℕ) (gen : M (Unit {0})) (test : View → Bool)
    : Type 0 where
  pub cells : List Cell
  pub short : length cells ≤ n
  pub emits : Emits env gen cells
  pub linked : are_open cells ≡ true
  pub decides : Decides k cells test

-- `op == BF_MATCHER_EQ ? BPF_JNE : BPF_JEQ`
abbrev pub mismatch_op : MatcherOp → JmpOp
mismatch_op op = if is_eq op then jne else jeq

-- Equal under BF_MATCHER_EQ, different under any other operator.
abbrev pub eq_or_ne : MatcherOp → ℕ → ℕ → Bool
eq_or_ne op a b = if is_eq op then a == b else not (a == b)

pub stays-mismatch : (op : MatcherOp) (a b : ℕ) → stays (mismatch_op op) a b ≡ eq_or_ne op a b
stays-mismatch op a b = elim (Bool-cases (is_eq op)) [ inl e ↦ rw e | inr e ↦ rw e ]

-- Against an immediate that does not change sign.
pub stays-mismatch_imm :
    (op : MatcherOp) (a b : ℕ)
    → b < 2 ^ 31
    → stays (mismatch_op op) a (sext32 (s32 b)) ≡ eq_or_ne op a b
stays-mismatch_imm op a b h =
    let e : sext32 (s32 b) ≡ b = ground arith in
    subst (λ x. stays (mismatch_op op) a x ≡ eq_or_ne op a b) (sym e) (stays-mismatch op a b)

-- Against a value that `BPF_MOV32_IMM` has loaded.
pub stays-mismatch_mov :
    (op : MatcherOp) (a b : ℕ)
    → b < 2 ^ 32
    → stays (mismatch_op op) a (s32 b % 2 ^ 32) ≡ eq_or_ne op a b
stays-mismatch_mov op a b h =
    let e : s32 b % 2 ^ 32 ≡ b = omega arith in
    subst (λ x. stays (mismatch_op op) a x ≡ eq_or_ne op a b) (sym e) (stays-mismatch op a b)

-- A field of the header that a pointer of the runtime context points to.
abbrev pub header_field : RuntimeField → Size → View → ℕ → ℕ
header_field h s v off =
    load s v.mem (address (load dword v.mem (address v.frame (prog_ctx_off h))) off)

-- The register r6 points to that header.
abbrev pub PointsTo : RuntimeField → View → ℕ → Type 0
PointsTo h v r6 = r6 ≡ load dword v.mem (address v.frame (prog_ctx_off h))

pub field-header :
    (h : RuntimeField) (sz : Size) (off : ℕ) (s : Machine) {v : View}
    → view s ≡ v
    → PointsTo h v (s.reg 6)
    → load sz s.mem (address (s.reg 6) off) ≡ header_field h sz v off
field-header h sz off s {v} e e6 =
    let em : s.mem ≡ v.mem = ap (λ (w : View). w.mem) e in rw (em, e6)
