-- ===== src/Machine/Decides.antt =====
-- What the code of a matcher does: it falls through if the packet matches and goes to the next
-- rule if it does not, and leaves alone what the matchers of a rule share.
use bpfilter_study.Base.{
  ℕ, ◌≡◌, refl, Bool, true, false, not, ◌&&◌, some, List, [], ◌∷◌, ◌++◌, arith, ◌==◌, ltb, leb,
  sext32, s32, ap,
}
use mathlib.Core.Path.{subst}
use mathlib.Core.Bool.{and-true}
use bpfilter_study.Insn.{Insn, JmpOp, jne, jeq, jgt, jge, jlt, jmp_imm_insn, jmp_reg_insn}
use bpfilter_study.Fixup.{Cell, jmp_next_rule}
use bpfilter_study.Machine.{Machine, Kernel, taken, branch, Outcome, fell, next, follow, exec}
use bpfilter_study.Machine.Seq.{and_then, exec-append}

-- The state that the matchers of a rule share: the L3 protocol in r7, the L4 protocol in r8, the
-- frame pointer in r10, and memory.
pub record View : Type 0 where
  pub l3_proto : ℕ
  pub l4_proto : ℕ
  pub frame : ℕ
  pub mem : ℕ → ℕ

abbrev pub view : Machine → View
view m = record { l3_proto = m.reg 7; l4_proto = m.reg 8; frame = m.reg 10; mem = m.mem }

pub data Decided (v : View) : Bool → Outcome → Type 0 where
  matched : {m : Machine} → view m ≡ v → Decided v true (fell 0 m)
  unmatched : {m : Machine} → view m ≡ v → Decided v false (next m)

abbrev pub Decides : Kernel → List Cell → (View → Bool) → Type 0
Decides k cs test = (m : Machine) → Decided (view m) (test (view m)) (exec k cs 0 m)

-- An instruction with a pending jump to the next rule, and one with nothing pending.
abbrev pub to_next : Insn → Cell
to_next i = record { insn = i; pending = some (jmp_next_rule, 0) }

-- The negation of `taken`: a conditional jump lets the run go on.
abbrev pub stays : JmpOp → ℕ → ℕ → Bool
stays jeq a v = not (a == v)
stays jne a v = a == v
stays jgt a v = leb a v
stays jge a v = ltb a v
stays jlt a v = leb v a

stays-taken : (op : JmpOp) (a v : ℕ) → not (taken op a v) ≡ stays op a v
stays-taken jeq a v = refl
stays-taken jne a v = ground arith
stays-taken jgt a v = ground arith
stays-taken jge a v = ground arith
stays-taken jlt a v = ground arith

pub Decided-eq : {v : View} {b c : Bool} {o : Outcome} → b ≡ c → Decided v b o → Decided v c o
Decided-eq {v} {o} e d = subst (λ b. Decided v b o) e d

branch-Decided :
    (k : Kernel) (cs : List Cell) (m : Machine) (v : View) (off : ℕ) (t b : Bool)
    → view m ≡ v
    → Decided v b (exec k cs 0 m)
    → Decided v (not t && b) (follow (exec k cs) (branch t (some (jmp_next_rule, 0)) off m))
branch-Decided k cs m v off true b e d = unmatched e
branch-Decided k cs m v off false b e d = d

-- A conditional jump to the next rule: the code matches if the jump is not taken and the rest
-- matches.
pub guard_imm-Decided :
    (k : Kernel) {v : View} (op : JmpOp) (r imm : ℕ) (cs : List Cell) (m : Machine) {b : Bool}
    → view m ≡ v
    → Decided v b (exec k cs 0 m)
    → Decided v
        (stays op (m.reg r) (sext32 (s32 imm)) && b)
        (exec k (to_next (jmp_imm_insn op r imm 0) ∷ cs) 0 m)
unfolding exec
guard_imm-Decided k {v} op r imm cs m {b} e d =
    Decided-eq (ap (λ t. t && b) (stays-taken op _ _)) (branch-Decided k cs m v 0 _ b e d)

pub guard_reg-Decided :
    (k : Kernel) {v : View} (op : JmpOp) (r s : ℕ) (cs : List Cell) (m : Machine) {b : Bool}
    → view m ≡ v
    → Decided v b (exec k cs 0 m)
    → Decided v
        (stays op (m.reg r) (m.reg s) && b)
        (exec k (to_next (jmp_reg_insn op r s 0) ∷ cs) 0 m)
unfolding exec
guard_reg-Decided k {v} op r s cs m {b} e d =
    Decided-eq (ap (λ t. t && b) (stays-taken op _ _)) (branch-Decided k cs m v 0 _ b e d)

pub done-Decided :
    (k : Kernel) {v : View} (m : Machine) → view m ≡ v → Decided v true (exec k [] 0 m)
unfolding exec
done-Decided k m e = matched e

-- The same for the last instruction.
pub last_imm-Decided :
    (k : Kernel) {v : View} (op : JmpOp) (r imm : ℕ) (m : Machine)
    → view m ≡ v
    → Decided v
        (stays op (m.reg r) (sext32 (s32 imm)))
        (exec k (to_next (jmp_imm_insn op r imm 0) ∷ []) 0 m)
last_imm-Decided k op r imm m e =
    Decided-eq (and-true _) (guard_imm-Decided k op r imm [] m e (done-Decided k m e))

pub last_reg-Decided :
    (k : Kernel) {v : View} (op : JmpOp) (r s : ℕ) (m : Machine)
    → view m ≡ v
    → Decided v (stays op (m.reg r) (m.reg s)) (exec k (to_next (jmp_reg_insn op r s 0) ∷ []) 0 m)
last_reg-Decided k op r s m e =
    Decided-eq (and-true _) (guard_reg-Decided k op r s [] m e (done-Decided k m e))

-- Code that decides one test, then code that decides another, decides both.
then-Decided :
    (k : Kernel) (ds : List Cell) (q : View → Bool) (v : View) (b : Bool) (o : Outcome)
    → Decided v b o
    → Decides k ds q
    → Decided v (b && q v) (and_then o (exec k ds))
then-Decided k ds q v b o (matched {m} e) d = rw e at (d m)
then-Decided k ds q v b o (unmatched e) d = unmatched e

pub Decides-append :
    (k : Kernel) (cs ds : List Cell) (p q : View → Bool)
    → Decides k cs p
    → Decides k ds q
    → Decides k (cs ++ ds) (λ v. p v && q v)
Decides-append k cs ds p q d e m =
    rw exec-append (then-Decided k ds q (view m) (p (view m)) (exec k cs 0 m) (d m) e)
