-- ===== src/Program/Extends.antt =====
-- Generators with jumps over code that is still to come: `Extends env p cs m ds` says that `m`, run
-- where `cs` has been appended to `p`, succeeds and leaves `ds` appended to `p`, so it may also
-- write the offsets of jumps in `cs`.
use bpfilter_study.Base.{
  ℕ, ◌+◌, ◌-◌, ◌%◌, ◌^◌, ◌≡◌, sym, ap, List, [], ◌∷◌, ◌++◌, arith, length, length-append,
  length-map, modify, modify-append,
}
use mathlib.Core.Path.{subst}
use mathlib.Core.List.{append_assoc, map-append}
use bpfilter_study.Insn.{Insn}
use bpfilter_study.Fixup.{Cell}
use bpfilter_study.Program.{
  Program, Result, ok, Env, M, with_result, ◌>>=◌, ◌>>◌, jmpctx_get, jmpctx_cleanup, set_off,
}
use bpfilter_study.Program.Emits.{
  plain, insns, fixups_at, fixups_at-append, Appends, IsSized, IsAmple, Returns, returns, Emits,
  Appends-nil, Appends-IsSized, Appends-trans, program_emit-Emits,
}

pub record Extends (env : Env) (p : Program) (cs : List Cell) {A : Type 0} (m : M A)
    (ds : List Cell) : Type 0 where
  pub run : (q : Program) → Appends p cs q → Returns (Appends p ds) (m env q)

-- A cell whose jump goes over `n` instructions.
abbrev pub aimed : ℕ → Cell → Cell
aimed n c = record c { insn = set_off n c.insn }

fixups_at-aimed :
    (b n : ℕ) (cs : List Cell) (c : Cell) (ds : List Cell)
    → fixups_at b (cs ++ aimed n c ∷ ds) ≡ fixups_at b (cs ++ c ∷ ds)
fixups_at-aimed b n cs c ds = rw (fixups_at-append, fixups_at-append)

length-aimed :
    (n : ℕ) (cs : List Cell) (c : Cell) (ds : List Cell)
    → length (cs ++ aimed n c ∷ ds) ≡ length (cs ++ c ∷ ds)
length-aimed n cs c ds = rw (length-append, length-append)

aim-insns :
    (l : List Insn) (n : ℕ) (cs : List Cell) (c : Cell) (ds : List Cell) (i : ℕ)
    → i ≡ length (l ++ insns cs)
    → modify (l ++ insns (cs ++ c ∷ ds)) i (set_off n) ≡ l ++ insns (cs ++ aimed n c ∷ ds)
aim-insns l n cs c ds i e =
    rw (map-append, map-append, ← append_assoc, ← append_assoc, e)
      (modify-append (l ++ insns cs) c.insn (insns ds) (set_off n))

far_set_off :
    (size i n : ℕ)
    → (size + 2 ^ 64 - i - 1) % 2 ^ 64 % 2 ^ 16 ≡ n % 2 ^ 16
    → set_off ((size + 2 ^ 64 - i - 1) % 2 ^ 64) ≡ set_off n
far_set_off size i n e = ap {B = Insn → Insn} (λ o x. record x { off = o }) e

append-Returns :
    {A : Type 0} {p q : Program} {cs ds : List Cell} {r : Result (A × Program)}
    → Appends p cs q
    → Returns (Appends q ds) r
    → Returns (Appends p (cs ++ ds)) r
append-Returns a (returns b) = returns (Appends-trans a b)

module _ {env : Env} {p : Program} where
  pub cleanup-Extends :
      (cs : List Cell) (c : Cell) (ds : List Cell) (i : ℕ)
      → IsSized p
      → i ≡ p.img_size + length cs
      → Extends env p (cs ++ c ∷ ds) (jmpctx_cleanup i) (cs ++ aimed (length ds) c ∷ ds)
  unfolding jmpctx_cleanup
  cleanup-Extends cs c ds i s e = record {
    run = λ q a. returns (record {
      img =
          rw (a.img, far_set_off q.img_size i (length ds) (far q a))
            (aim-insns p.img (length ds) cs c ds i (
              omega (
                arith,
                e,
                s,
                length-append {0} p.img (insns cs),
                length-map (λ (c : Cell). c.insn) cs,
              )));
      fixups = rw fixups_at-aimed a.fixups;
      size = rw length-aimed a.size;
      same = a.same;
    });
  }
    where
      far :
          (q : Program)
          → Appends p (cs ++ c ∷ ds) q
          → (q.img_size + 2 ^ 64 - i - 1) % 2 ^ 64 % 2 ^ 16 ≡ length ds % 2 ^ 16
      far q a = omega (arith, a.size, e, length-append {0} cs (c ∷ ds))

  then-Returns :
      {A : Type 0} (k : Unit {0} → M A) (ds es : List Cell) {r : Result (Unit {0} × Program)}
      → Returns (Appends p ds) r
      → Extends env p ds (k tt) es
      → Returns (Appends p es) (with_result r (λ a. k a env))
  then-Returns k ds es (returns {p = q} a) next = next.run q a

  pub Extends->> :
      {A : Type 0} {m : M (Unit {0})} {k : M A} {cs ds es : List Cell}
      → Extends env p cs m ds
      → Extends env p ds k es
      → Extends env p cs (m >> k) es
  Extends->> {k} {ds} {es} em ek = record {
    run = λ q a. then-Returns (λ _. k) ds es (em.run q a) ek;
  }

  -- A generator with no jump left open.
  pub Emits-Extends :
      {A : Type 0} {m : M A} (cs ds : List Cell)
      → IsSized p
      → Emits env m ds
      → Extends env p cs m (cs ++ ds)
  Emits-Extends cs ds s em = record {
    run = λ q a. append-Returns a (em.run q (Appends-IsSized s a));
  }

  get-Returns :
      {A : Type 0} (i : Insn) (k : ℕ → M A) (cs es : List Cell) (n : ℕ)
      {r : Result (Unit {0} × Program)}
      → Returns (Appends p (cs ++ plain i ∷ [])) r
      → Extends env p (cs ++ plain i ∷ []) (k n) es
      → Returns (Appends p es) (with_result (with_result r (λ _ q. ok (n, q))) (λ a. k a env))
  get-Returns i k cs es n (returns {p = q} a) next = next.run q a

  -- A jump is opened: its index is where the program ends.
  pub get-Extends :
      {A : Type 0} (ample : IsAmple env) (i : Insn) (k : ℕ → M A) (cs es : List Cell)
      → IsSized p
      → Extends env p (cs ++ plain i ∷ []) (k (p.img_size + length cs)) es
      → Extends env p cs (jmpctx_get i >>= k) es
  unfolding jmpctx_get
  get-Extends ample i k cs es s next = record {
    run = λ q a.
        get-Returns i k cs es q.img_size
          (append-Returns a ((program_emit-Emits ample i).run q (Appends-IsSized s a)))
          (subst (λ n. Extends env p (cs ++ plain i ∷ []) (k n) es) (sym a.size) next);
  }

pub Emits-of_Extends :
    {env : Env} {A : Type 0} {m : M A} {cs : List Cell}
    → ((p : Program) → IsSized p → Extends env p [] m cs)
    → Emits env m cs
Emits-of_Extends h = record { run = λ p s. (h p s).run p (Appends-nil p) }
