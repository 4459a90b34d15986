-- ===== src/Cgen/Resolve/Correct.antt =====
-- What the resolution of the jumps to the next rule does to a program.
use bpfilter_study.Program.Emits.{insns, IsSized, returns}
use mathlib.Core.Bool.{and-eq-true_iff}
use bpfilter_study.Base.{
  ℕ, List, Bool, get_or, ◌≡◌, ◌∷◌, ◌++◌, true, Bool-cases, [], length, not, ◌+◌, refl, ◌&&◌, inl,
  suc, ◌<◌, inr, ◌==◌, ap, ◌^◌, ◌-◌, ◌%◌, arith, lt→ltb, modify-append, ◌∙◌, modify, Option, sym,
  some, length-append, none,
}
use bpfilter_study.Fixup.{FixupType, Cell, Fixup, same_type, jmp_next_rule, fixup_off}
use bpfilter_study.Cgen.Resolve.{
  fixup_loop, program_fixup_insn, keep, resolve_one, insn_at, write_fixup, program_fixup,
}
use bpfilter_study.Insn.{Insn, exit_insn}
use bpfilter_study.Program.{Program, Result, ok, err, Env}
use bpfilter_study.Machine.Link.{are_open, resolve, is_jump, length-resolve}
use bpfilter_study.Program.Emits.{fixups_at}
use mathlib.Core.List.{append_assoc}
use bpfilter_study.Program.Extends.{Extends}

get_or-append :
    (l : List Insn) (i : Insn) (r : List Insn) (d : Insn) → get_or (l ++ i ∷ r) (length l) d ≡ i
get_or-append [] i r d = refl
get_or-append (x ∷ l) i r d = get_or-append l i r d

fixup_insn-off :
    (i : Insn) (n : ℕ)
    → (i.off == 0) ≡ true
    → n < 32767
    → program_fixup_insn i fixup_off n ≡ ok (record i { off = n })
unfolding program_fixup_insn
fixup_insn-off i n ho h = let en : n % 2 ^ 16 ≡ n = omega arith in rw (ho, lt→ltb n 32767 h, en)

write-off :
    (f : Fixup) (q : Program) (v : ℕ) (i : Insn)
    → program_fixup_insn (insn_at q f.insn) fixup_off v ≡ ok i
    → write_fixup f q (ok (fixup_off, v)) ≡ ok (record q { img = modify q.img f.insn (λ _. i) })
write-off f q v i e = rw (write_fixup, e)

-- One jump, at the end of `l`, with `n` instructions behind it.
resolve_one-jump :
    (q : Program) (l : List Insn) (i : Insn) (r : List Insn) (b a n : ℕ)
    → q.img ≡ l ++ i ∷ r
    → b ≡ length l
    → q.img_size ≡ b + suc n
    → n < 32767
    → (i.off == 0) ≡ true
    → resolve_one (record { type = jmp_next_rule; insn = b; attr = a }) q
      ≡ ok (record q { img = l ++ record i { off = n } ∷ r })
resolve_one-jump q l i r b a n e eb es h ho =
    let f : Fixup = record { type = jmp_next_rule; insn = b; attr = a } in
    let ev : (q.img_size + 2 ^ 64 - b - 1) % 2 ^ 32 ≡ n = omega (arith, es) in
    let here : insn_at q b ≡ i = rw (e, eb) (get_or-append l i r exit_insn) in
    let fixed : program_fixup_insn (insn_at q b) fixup_off n ≡ ok (record i { off = n }) =
      ap (λ j. program_fixup_insn j fixup_off n) here ∙ fixup_insn-off i n ho h in
    let img : modify q.img b (λ _. record i { off = n }) ≡ l ++ record i { off = n } ∷ r =
      rw (e, eb) (modify-append l i r (λ _. record i { off = n })) in
    ap (λ v. write_fixup f q (ok (fixup_off, v))) ev
    ∙ write-off f q n _ fixed
    ∙ ap (λ w. ok (record q { img = w })) img

-- Fixups of other types.
abbrev pub lacks : FixupType → List Fixup → Bool
lacks t [] = true
lacks t (f ∷ fs) = not (same_type t f.type) && lacks t fs

abbrev keep_all : List Fixup → Result (List Fixup × Program) → Result (List Fixup × Program)
keep_all [] r = r
keep_all (f ∷ fs) r = keep f (keep_all fs r)

loop-keeps :
    (t : FixupType) (fs gs : List Fixup) (q : Program)
    → lacks t fs ≡ true
    → fixup_loop t (fs ++ gs) q ≡ keep_all fs (fixup_loop t gs q)
unfolding fixup_loop
loop-keeps t [] gs q h = refl
loop-keeps t (f ∷ fs) gs q h = elim (Bool-cases (same_type t f.type)) [
  | inl e ↦ cc
  | inr e ↦
      rw (fixup_loop, e)
        (ap (keep f)
          (loop-keeps t fs gs q ((and-eq-true_iff (not (same_type t f.type)) (lacks t fs)).0 h).1))
]

keep_all-ok : (fs gs : List Fixup) (q : Program) → keep_all fs (ok (gs, q)) ≡ ok (fs ++ gs, q)
keep_all-ok [] gs q = refl
keep_all-ok (f ∷ fs) gs q = rw (keep_all-ok fs gs q)

abbrev Resolves : List Cell → Type 0
Resolves cs =
    (q : Program) (l : List Insn) (b : ℕ)
    → q.img ≡ l ++ insns cs
    → b ≡ length l
    → q.img_size ≡ b + length cs
    → are_open cs ≡ true
    → length cs < 32767
    → fixup_loop jmp_next_rule (fixups_at b cs) q
      ≡ ok (fixups_at b (resolve cs), record q { img = l ++ insns (resolve cs) })

-- The instruction moves over to what lies in front.
Resolves-behind :
    (i : Insn) (cs : List Cell)
    → Resolves cs
    → (q : Program) (l : List Insn) (b : ℕ) → q.img ≡ l ++ i ∷ insns cs
    → b ≡ length l
    → q.img_size ≡ b + suc (length cs)
    → are_open cs ≡ true
    → length cs < 32767
    → fixup_loop jmp_next_rule (fixups_at (b + 1) cs) q
      ≡ ok (fixups_at (b + 1) (resolve cs), record q { img = l ++ i ∷ insns (resolve cs) })
Resolves-behind i cs r q l b e eb es h n =
    let ei : q.img ≡ (l ++ i ∷ []) ++ insns cs = e ∙ sym (append_assoc l (i ∷ []) (insns cs)) in
    let el : b + 1 ≡ length (l ++ i ∷ []) = omega (arith, length-append {0} l (i ∷ [])) in
    let em = append_assoc l (i ∷ []) (insns (resolve cs)) in
    r q (l ++ i ∷ []) (b + 1) ei el (omega arith) h n
    ∙ ap (λ w. ok (fixups_at (b + 1) (resolve cs), record q { img = w })) em

-- The loop behind a fixup that has been resolved.
abbrev loop_from : List Fixup → Result Program → Result (List Fixup × Program)
loop_from fs (ok p) = fixup_loop jmp_next_rule fs p
loop_from fs (err e) = err e

cons-Resolves :
    (p : Option (FixupType × ℕ)) (i : Insn) (cs : List Cell)
    → Resolves cs
    → Resolves (record { insn = i; pending = p } ∷ cs)
unfolding fixup_loop same_type
cons-Resolves none i cs r q l b e eb es h n = Resolves-behind i cs r q l b e eb es h (omega arith)
cons-Resolves (some (jmp_next_rule, a)) i cs r q l b e eb es h n =
    let both = (and-eq-true_iff (is_jump i.code && i.off == 0) (are_open cs)).0 h in
    let zero_off = ((and-eq-true_iff (is_jump i.code) (i.off == 0)).0 both.0).1 in
    let i' : Insn = record i { off = length cs } in
    let q' : Program = record q { img = l ++ i' ∷ insns cs } in
    ap (loop_from (fixups_at (b + 1) cs))
      (resolve_one-jump q l i (insns cs) b a (length cs) e eb es (omega arith) zero_off)
    ∙ Resolves-behind i' cs r q' l b refl eb es both.1 (omega arith)
cons-Resolves (some (t, a)) i cs r q l b e eb es h n =
    ap (keep (record { type = t; insn = b; attr = a }))
      (Resolves-behind i cs r q l b e eb es h (omega arith))

resolves : (cs : List Cell) → Resolves cs
unfolding fixup_loop
resolves [] q l b e eb es h n = ap (λ w. ok ([], record q { img = w })) e
resolves (c ∷ cs) q l b e eb es h n =
    cons-Resolves c.pending c.insn cs (resolves cs) q l b e eb es h n

-- Where code with at most 32766 instructions has been appended, with jumps to the next rule
-- pending on jumps that have no offset yet, and none pending before it, the resolution of these
-- jumps gives each the number of instructions behind it and leaves all other fixups.
pub program_fixup-Extends :
    {env : Env} {p : Program} (cs : List Cell)
    → IsSized p
    → lacks jmp_next_rule p.fixups ≡ true
    → are_open cs ≡ true
    → length cs < 32767
    → Extends env p cs (program_fixup jmp_next_rule) (resolve cs)
unfolding program_fixup
program_fixup-Extends {p} cs s none_pending h n = record {
  run = λ q a.
      let eq : fixup_loop jmp_next_rule q.fixups q
          ≡ ok (
            p.fixups ++ fixups_at p.img_size (resolve cs),
            record q { img = p.img ++ insns (resolve cs) },
          ) =
        ap (λ fs. fixup_loop jmp_next_rule fs q) a.fixups
        ∙ loop-keeps jmp_next_rule p.fixups (fixups_at p.img_size cs) q none_pending
        ∙ ap (keep_all p.fixups) (resolves cs q p.img p.img_size a.img (sym s) a.size h n)
        ∙ keep_all-ok p.fixups _ _ in
      rw (program_fixup, eq)
        (returns (record {
          img = refl;
          fixups = refl;
          size = rw (length-resolve cs) a.size;
          same = a.same;
        }));
}
