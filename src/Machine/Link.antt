-- ===== src/Machine/Link.antt =====
-- Code whose jumps to the next rule have been given their targets: the end of the code.
use mathlib.Core.Bool.{and-eq-true_iff}
use bpfilter_study.Base.{
  if◌then◌else◌, ℕ, List, Option, Bool, length, some, true, ◌≡◌, ◌∷◌, ◌&&◌, ◌++◌, ◌<◌, [], ap, none,
  ◌==◌, ◌^◌, false, refl, suc, zero, arith, ltb, lt→ltb,
}
use bpfilter_study.Machine.{
  Machine, Outcome, exec, Kernel, Step, next, fell, exited, follow, faulted, branch, hop, hop_by,
  leave, step, step_op, halt, stuck,
}
use bpfilter_study.Insn.{Opcode, Insn, jmp_reg, jmp_imm, jmp_a, bswap}
use bpfilter_study.Fixup.{jmp_next_rule, Cell, FixupType}

-- Pending jumps to the next rule get the number of instructions behind them as their offset.
abbrev resolved_cell : Option (FixupType × ℕ) → ℕ → Cell → Cell
resolved_cell (some (jmp_next_rule, _)) n c = record {
  insn = record c.insn { off = n };
  pending = none;
}
resolved_cell _ n c = c

abbrev pub resolve : List Cell → List Cell
resolve [] = []
resolve (c ∷ cs) = resolved_cell c.pending (length cs) c ∷ resolve cs

abbrev pub is_jump : Opcode → Bool
is_jump (jmp_reg op) = true
is_jump (jmp_imm op) = true
is_jump jmp_a = true
is_jump _ = false

abbrev pub is_open : Option (FixupType × ℕ) → Insn → Bool
is_open (some (jmp_next_rule, _)) i = is_jump i.code && i.off == 0
is_open _ i = true

-- Only jumps, with no offset yet, are pending jumps to the next rule.
abbrev pub are_open : List Cell → Bool
are_open [] = true
are_open (c ∷ cs) = is_open c.pending c.insn && are_open cs

-- A jump to the next rule falls off the end of the code.
abbrev pub close : Outcome → Outcome
close (next m) = fell 0 m
close (fell n m) = fell n m
close (exited m) = exited m
close faulted = faulted

pub length-resolve : (cs : List Cell) → length (resolve cs) ≡ length cs
length-resolve [] = refl
length-resolve (c ∷ cs) = ap suc (length-resolve cs)

pub exec_all : (k : Kernel) (cs : List Cell) (m : Machine) → exec k cs (length cs) m ≡ fell 0 m
unfolding exec
exec_all k [] m = refl
exec_all k (c ∷ cs) m = exec_all k cs m

pub are_open-append :
    (cs ds : List Cell) → are_open cs ≡ true → are_open ds ≡ true → are_open (cs ++ ds) ≡ true
are_open-append [] ds hc hd = hd
are_open-append (c ∷ cs) ds hc hd =
    let both = (and-eq-true_iff (is_open c.pending c.insn) (are_open cs)).0 hc in
    rw (both.0) (are_open-append cs ds both.1 hd)

abbrev is_next : Option (FixupType × ℕ) → Bool
is_next (some (jmp_next_rule, _)) = true
is_next _ = false

abbrev is_leave : Step → Bool
is_leave (leave m) = true
is_leave _ = false

if-not_leave :
    (b : Bool) (s t : Step)
    → is_leave s ≡ false
    → is_leave t ≡ false
    → is_leave (if b then s else t) ≡ false
if-not_leave true s t hs ht = hs
if-not_leave false s t hs ht = ht

hop_by-not_leave :
    (p : Option (FixupType × ℕ)) (off : ℕ) (m : Machine)
    → is_next p ≡ false
    → is_leave (hop_by p off m) ≡ false
hop_by-not_leave none off m h = if-not_leave (ltb off (2 ^ 15)) (hop off m) stuck refl refl
hop_by-not_leave (some (jmp_next_rule, _)) off m h = cc
hop_by-not_leave (some (_, _)) off m h = if-not_leave (ltb off (2 ^ 15)) (hop off m) stuck refl refl

branch-not_leave :
    (b : Bool) (p : Option (FixupType × ℕ)) (off : ℕ) (m : Machine)
    → is_next p ≡ false
    → is_leave (branch b p off m) ≡ false
branch-not_leave true p off m h = hop_by-not_leave p off m h
branch-not_leave false p off m h = refl

step-not_leave :
    (o : Opcode) (k : Kernel) (p : Option (FixupType × ℕ)) (i : Insn) (m : Machine)
    → is_next p ≡ false
    → is_leave (step_op o k p i m) ≡ false
step-not_leave bswap k p i m h = if-not_leave (i.imm == 16) _ stuck refl refl
step-not_leave (jmp_reg op) k p i m h = branch-not_leave _ p i.off m h
step-not_leave (jmp_imm op) k p i m h = branch-not_leave _ p i.off m h
step-not_leave jmp_a k p i m h = hop_by-not_leave p i.off m h
step-not_leave _ k p i m h = refl

module _ (f g : ℕ → Machine → Outcome) (h : (n : ℕ) (m : Machine) → f n m ≡ close (g n m)) where
  follow-close : (s : Step) → is_leave s ≡ false → follow f s ≡ close (follow g s)
  follow-close (hop n m) l = h n m
  follow-close (leave m) l = cc
  follow-close (halt m) l = refl
  follow-close stuck l = refl

  branch-close :
      (b : Bool) (a n off : ℕ) (m : Machine)
      → n < 2 ^ 15
      → f n m ≡ fell 0 m
      → follow f (branch b none n m) ≡ close (follow g (branch b (some (jmp_next_rule, a)) off m))
  branch-close true a n off m l e = rw (lt→ltb n (2 ^ 15) l) e
  branch-close false a n off m l e = h 0 m

  jump-close :
      (o : Opcode) (k : Kernel) (a n : ℕ) (i : Insn) (m : Machine)
      → is_jump o ≡ true
      → n < 2 ^ 15
      → f n m ≡ fell 0 m
      → follow f (step_op o k none (record i { off = n }) m)
        ≡ close (follow g (step_op o k (some (jmp_next_rule, a)) i m))
  jump-close (jmp_reg op) k a n i m j l e = branch-close _ a n i.off m l e
  jump-close (jmp_imm op) k a n i m j l e = branch-close _ a n i.off m l e
  jump-close jmp_a k a n i m j l e = branch-close true a n i.off m l e
  jump-close _ k a n i m j l e = cc

  step-close :
      (p : Option (FixupType × ℕ)) (k : Kernel) (n : ℕ) (i : Insn) (m : Machine)
      → is_open p i ≡ true
      → n < 2 ^ 15
      → f n m ≡ fell 0 m
      → follow f (step k (resolved_cell p n (record { insn = i; pending = p })) m)
        ≡ close (follow g (step k (record { insn = i; pending = p }) m))
  step-close none k n i m o l e = follow-close _ (step-not_leave i.code k none i m refl)
  step-close (some (jmp_next_rule, a)) k n i m o l e =
      jump-close i.code k a n i m ((and-eq-true_iff (is_jump i.code) (i.off == 0)).0 o).0 l e
  step-close (some (t, a)) k n i m o l e =
      follow-close _ (step-not_leave i.code k (some (t, a)) i m refl)

-- Resolved code does what the code did, with its next rule at its end.
pub exec-resolve :
    (k : Kernel) (cs : List Cell) (n : ℕ) (m : Machine)
    → are_open cs ≡ true
    → length cs < 2 ^ 15
    → exec k (resolve cs) n m ≡ close (exec k cs n m)
unfolding exec
exec-resolve k [] n m h l = refl
exec-resolve k (c ∷ cs) (suc n) m h l =
    exec-resolve k cs n m ((and-eq-true_iff (is_open c.pending c.insn) (are_open cs)).0 h).1
      (omega arith)
exec-resolve k (c ∷ cs) zero m h l =
    let both = (and-eq-true_iff (is_open c.pending c.insn) (are_open cs)).0 h in
    let rest = λ (n : ℕ) (m : Machine). exec-resolve k cs n m both.1 (omega arith) in
    let end = rw (length-resolve cs) at (exec_all k (resolve cs) m) in
    step-close (exec k (resolve cs)) (exec k cs) rest c.pending k (length cs) c.insn m both.0
      (omega arith) end
