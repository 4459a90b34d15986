-- ===== src/Cgen/Rule/Effects.antt =====
-- The actions of a rule that a packet matches, apart from its verdict: the mark, the log and the
-- counter of src/bpfilter/cgen/program.c, as changes of the machine.
use bpfilter_study.Machine.{load, store, address, Kernel, Machine, exec, alu64, alu32, fell, after}
use bpfilter_study.Chain.{Rule, rule_mark_is_set, rule_mark_get}
use bpfilter_study.Base.{
  ◌==◌, List, ℕ, ◌≡◌, ◌+◌, false, true, ◌++◌, Bool-cases, sext32, inl, s32, inr, refl, ◌%◌, ◌^◌,
  arith, ap, ◌∙◌,
}
use bpfilter_study.Fixup.{Cell, counters_map_fd}
use bpfilter_study.Cgen.Rule.Correct.{log_cells, mark_cells, counter_cells}
use bpfilter_study.Insn.{dword, word}
use bpfilter_study.Machine.Decides.{View, view}
use bpfilter_study.Machine.Seq.{exec-append}
use bpfilter_study.Runtime.{prog_ctx_imm, prog_ctx_off, arg}

-- The argument of the program, `struct bf_runtime`'s `arg`.
abbrev pub program_arg : Machine → ℕ
program_arg m = load dword m.mem (address (m.reg 10) (prog_ctx_off arg))

-- The address of `arg` on the stack of the program.
abbrev pub arg_address : Machine → ℕ
arg_address m = (m.reg 10 + sext32 (s32 (prog_ctx_imm arg))) % 2 ^ 64

-- A rule with a mark writes it to the packet's `mark`, which is at 8 in the program's argument.
pub data Marks (r : Rule) (m : Machine) : Machine → Type 0 where
  unmarked : rule_mark_is_set r ≡ false → Marks r m m
  marked :
      {m' : Machine}
      → rule_mark_is_set r ≡ true
      → view m' ≡ record (view m) {
        mem = store word m.mem (address (program_arg m) 8) (sext32 (s32 (rule_mark_get r)));
      }
      → Marks r m m'

-- A rule that logs calls the log stub with the context, its index, the headers to log and the two
-- protocols.
pub data Logs (k : Kernel) (r : Rule) (m : Machine) : Machine → Type 0 where
  unlogged : (r.log == 0) ≡ true → Logs k r m m
  logged :
      {at : Machine}
      → (r.log == 0) ≡ false
      → view at ≡ view m
      → at.reg 1 ≡ arg_address m
      → at.reg 2 ≡ sext32 (s32 r.index)
      → at.reg 3 ≡ sext32 (s32 r.log)
      → at.reg 4 ≡ m.reg 7
      → at.reg 5 ≡ m.reg 8
      → Logs k r m (after at (k.stub 3 at))

-- A rule with counters calls the counters stub with the context, the counters map and its index.
pub data Counts (k : Kernel) (r : Rule) (m : Machine) : Machine → Type 0 where
  uncounted : r.counters ≡ false → Counts k r m m
  counted :
      {at : Machine}
      → r.counters ≡ true
      → view at ≡ view m
      → at.reg 1 ≡ arg_address m
      → at.reg 2 ≡ k.map_address counters_map_fd 0
      → at.reg 3 ≡ s32 r.index
      → Counts k r m (after at (k.stub 2 at))

-- The mark, then the log, then the counter.
pub data Acts (k : Kernel) (r : Rule) (m : Machine) : Machine → Type 0 where
  acts : {m₁ m₂ m₃ : Machine} → Marks r m m₁ → Logs k r m₁ m₂ → Counts k r m₂ m₃ → Acts k r m m₃

-- The protocols and the frame pointer are the same.
abbrev pub Kept : View → View → Type 0
Kept v w = (w.l3_proto ≡ v.l3_proto) × (w.l4_proto ≡ v.l4_proto) × (w.frame ≡ v.frame)

view-Kept : (v w : View) (mem : ℕ → ℕ) → w ≡ record v { mem = mem } → Kept v w
view-Kept v w mem e =
    (ap (λ (x : View). x.l3_proto) e, ap (λ (x : View). x.l4_proto) e, ap (λ (x : View). x.frame) e)

Kept-trans : (u v w : View) → Kept u v → Kept v w → Kept u w
Kept-trans u v w (a, b, c) (d, e, f) = (d ∙ a, e ∙ b, f ∙ c)

Marks-Kept : {r : Rule} {m m' : Machine} → Marks r m m' → Kept (view m) (view m')
Marks-Kept (unmarked e) = (refl, refl, refl)
Marks-Kept {m} {m'} (marked e q) = view-Kept (view m) (view m') _ q

Logs-Kept : {k : Kernel} {r : Rule} {m m' : Machine} → Logs k r m m' → Kept (view m) (view m')
Logs-Kept (unlogged e) = (refl, refl, refl)
Logs-Kept {m} (logged {at} e q a b c d f) = view-Kept (view m) (view at) m.mem q

Counts-Kept : {k : Kernel} {r : Rule} {m m' : Machine} → Counts k r m m' → Kept (view m) (view m')
Counts-Kept (uncounted e) = (refl, refl, refl)
Counts-Kept {m} (counted {at} e q a b c) = view-Kept (view m) (view at) m.mem q

pub Acts-Kept : {k : Kernel} {r : Rule} {m m' : Machine} → Acts k r m m' → Kept (view m) (view m')
Acts-Kept {m} {m'} (acts {m₁} {m₂} a b c) =
    Kept-trans (view m) (view m₂) (view m')
      (Kept-trans (view m) (view m₁) (view m₂) (Marks-Kept a) (Logs-Kept b)) (Counts-Kept c)

-- Code that runs from its beginning to its end, and what it does.
pub record Straight (k : Kernel) (cs : List Cell) (change : Machine → Machine → Type 0)
    : Type 0 where
  pub end : Machine → Machine
  pub run : (m : Machine) → exec k cs 0 m ≡ fell 0 (end m)
  pub does : (m : Machine) → change m (end m)

pub Straight-then :
    (k : Kernel) (cs ds : List Cell) {change : Machine → Machine → Type 0}
    (s : Straight k cs change) (m : Machine)
    → exec k (cs ++ ds) 0 m ≡ exec k ds 0 (s.end m)
Straight-then k cs ds s m = rw (exec-append, s.run m) refl

pub mark-Straight : (k : Kernel) (r : Rule) → Straight k (mark_cells r) (Marks r)
unfolding exec alu64
mark-Straight k r = elim (Bool-cases (rule_mark_is_set r)) [
  | inl e ↦ rw e (record { end = _; run = λ m. refl; does = λ m. marked e refl })
  | inr e ↦ rw e (record { end = _; run = λ m. refl; does = λ m. unmarked e })
]

pub log-Straight : (k : Kernel) (r : Rule) → Straight k (log_cells r) (Logs k r)
unfolding exec alu64
log-Straight k r = elim (Bool-cases (r.log == 0)) [
  | inl e ↦ rw e (record { end = _; run = λ m. refl; does = λ m. unlogged e })
  | inr e ↦
      rw e (record { end = _; run = λ m. refl; does = λ m. logged e refl refl refl refl refl refl })
]

s32-s32 : (v : ℕ) → s32 (s32 v) ≡ s32 v
s32-s32 v = omega arith

pub counter-Straight : (k : Kernel) (r : Rule) → Straight k (counter_cells r) (Counts k r)
unfolding exec alu64 alu32
counter-Straight k r = elim (Bool-cases r.counters) [
  | inl e ↦
      simp e (record {
        end = _;
        run = λ m. refl;
        does = λ m. counted e refl refl refl (s32-s32 r.index);
      })
  | inr e ↦ simp e (record { end = _; run = λ m. refl; does = λ m. uncounted e })
]
