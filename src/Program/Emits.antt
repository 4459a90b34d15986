-- ===== src/Program/Emits.antt =====
-- The effect of a generator as a list of cells: the instructions that it appends, each with the
-- fixup that it leaves on it. The rules build the list along a `do` block.
use bpfilter_study.Base.{
  ℕ, suc, ◌+◌, ◌≡◌, refl, ap, ◌∙◌, Bool, true, false, none, some, List, [], ◌∷◌, ◌++◌, map, arith,
  length, length-append, length-map, ◌==◌, if◌then◌else◌,
}
use mathlib.Core.List.{append_assoc, append-nil, map-append}
use bpfilter_study.Insn.{Insn}
use bpfilter_study.Fixup.{FixupType, Fixup, Cell}
use bpfilter_study.Program.{
  Program, Result, ok, Env, M, pure, with_result, ◌>>=◌, ◌>>◌, program_grow_img, make_room,
  append_insn, program_emit, add_fixup, here, program_emit_fixup,
}

abbrev pub plain : Insn → Cell
plain i = record { insn = i; pending = none }

abbrev pub pending : FixupType → ℕ → Insn → Cell
pending t a i = record { insn = i; pending = some (t, a) }

abbrev pub insns : List Cell → List Insn
insns = map λ c. c.insn

-- The fixups of cells that stand at `base`.
abbrev pub fixups_at : ℕ → List Cell → List Fixup
fixups_at base [] = []
fixups_at base (c ∷ cs) = elim c.pending [
  | none ↦ fixups_at (base + 1) cs
  | some (t, a) ↦ record { type = t; insn = base; attr = a } ∷ fixups_at (base + 1) cs
]

-- What a generator leaves alone.
abbrev pub frame : Program → Program
frame p = record p { img_null = true; img = []; img_size = 0; img_cap = 0; fixups = [] }

pub record Appends (p : Program) (cs : List Cell) (p' : Program) : Type 0 where
  pub img : p'.img ≡ p.img ++ insns cs
  pub fixups : p'.fixups ≡ p.fixups ++ fixups_at p.img_size cs
  pub size : p'.img_size ≡ p.img_size + length cs
  pub same : frame p' ≡ frame p

-- `img_size` counts the instructions of `img`.
abbrev pub IsSized : Program → Type 0
IsSized p = length p.img ≡ p.img_size

abbrev pub IsAmple : Env → Type 0
IsAmple env = (n : ℕ) → env.alloc n ≡ true

pub data Returns {A : Type 0} (P : Program → Type 0) : Result (A × Program) → Type 0 where
  returns : {a : A} {p : Program} → P p → Returns P (ok (a, p))

-- With enough memory `m` succeeds and appends `cs`.
pub record Emits (env : Env) {A : Type 0} (m : M A) (cs : List Cell) : Type 0 where
  pub run : (p : Program) → IsSized p → Returns (Appends p cs) (m env p)

pub fixups_at-append :
    (b : ℕ) (cs ds : List Cell)
    → fixups_at b (cs ++ ds) ≡ fixups_at b cs ++ fixups_at (b + length cs) ds
fixups_at-append b [] ds = let e : b + 0 ≡ b = omega arith in rw e
fixups_at-append b (c ∷ cs) ds =
    let e : b + 1 + length cs ≡ b + suc (length cs) = omega arith in
    go c.pending (rw e at (fixups_at-append (b + 1) cs ds))
  where
    go :
        (o : _)
        → fixups_at (b + 1) (cs ++ ds) ≡ fixups_at (b + 1) cs ++ fixups_at (b + suc (length cs)) ds
        → fixups_at b (record { insn = c.insn; pending = o } ∷ (cs ++ ds))
          ≡ fixups_at b (record { insn = c.insn; pending = o } ∷ cs)
            ++ fixups_at (b + suc (length cs)) ds
    go none h = h
    go (some (t, a)) h = ap (λ l. record { type = t; insn = b; attr = a } ∷ l) h

pub Appends-IsSized : {p p' : Program} {cs : List Cell} → IsSized p → Appends p cs p' → IsSized p'
Appends-IsSized {p} {p'} {cs} s a = rw a.img (
    omega (arith, length-append {0} p.img (insns cs), length-map (λ (c : Cell). c.insn) cs, a.size))

pub Appends-trans :
    {p q r : Program} {cs ds : List Cell} → Appends p cs q → Appends q ds r → Appends p (cs ++ ds) r
Appends-trans {p} {q} {r} {cs} {ds} a b = record {
  img = rw (b.img, a.img, map-append, append_assoc);
  fixups = rw (b.fixups, a.fixups, a.size, fixups_at-append, append_assoc);
  size = omega (arith, a.size, b.size, length-append {0} cs ds);
  same = b.same ∙ a.same;
}

pub Appends-nil : (p : Program) → Appends p [] p
Appends-nil p = record {
  img = rw append-nil;
  fixups = rw append-nil;
  size = omega arith;
  same = refl;
}

trans-Returns :
    {B : Type 0} {p q : Program} {cs ds : List Cell} {r : Result (B × Program)}
    → Appends p cs q
    → Returns (Appends q ds) r
    → Returns (Appends p (cs ++ ds)) r
trans-Returns a (returns b) = returns (Appends-trans a b)

with_fixup :
    (t : FixupType) (a : ℕ) (i : Insn) (p : Program) {r : Result (Unit {0} × Program)}
    → Returns
        (Appends
          (record p { fixups = p.fixups ++ record { type = t; insn = p.img_size; attr = a } ∷ [] })
          (plain i ∷ []))
        r
    → Returns (Appends p (pending t a i ∷ [])) r
with_fixup t a i p (returns d) =
    returns (record { img = d.img; fixups = d.fixups ∙ append-nil _; size = d.size; same = d.same })

room_if :
    (b : Bool) (p : Program) {r : Result (Unit {0} × Program)}
    → Returns (Appends p []) r
    → Returns (Appends p []) (if b then r else ok (tt, p))
room_if true p h = h
room_if false p h = returns (Appends-nil p)

module _ {env : Env} where
  pub Emits-pure : {A : Type 0} (a : A) → Emits env (pure a) []
  Emits-pure a = record { run = λ p s. returns (Appends-nil p) }

  then-Returns :
      {A B : Type 0} (k : A → M B) (ds : List Cell) (p : Program) (cs : List Cell)
      (r : Result (A × Program))
      → IsSized p
      → Returns (Appends p cs) r
      → ((a : A) → Emits env (k a) ds)
      → Returns (Appends p (cs ++ ds)) (with_result r (λ a. k a env))
  then-Returns k ds p cs r s (returns {a} {p = q} done) next =
      trans-Returns done ((next a).run q (Appends-IsSized s done))

  pub Emits->>= :
      {A B : Type 0} {m : M A} {k : A → M B} {cs ds : List Cell}
      → Emits env m cs
      → ((a : A) → Emits env (k a) ds)
      → Emits env (m >>= k) (cs ++ ds)
  Emits->>= {m} {k} {cs} {ds} em ek = record {
    run = λ p s. then-Returns k ds p cs (m env p) s (em.run p s) ek;
  }

  pub Emits->> :
      {B : Type 0} {m : M (Unit {0})} {k : M B} {cs ds : List Cell}
      → Emits env m cs
      → Emits env k ds
      → Emits env (m >> k) (cs ++ ds)
  Emits->> em ek = Emits->>= em (λ _. ek)

  pub Emits-if :
      {A : Type 0} (b : Bool) {m n : M A} {cs ds : List Cell}
      → Emits env m cs
      → Emits env n ds
      → Emits env (if b then m else n) (if b then cs else ds)
  Emits-if true em en = em
  Emits-if false em en = en

  -- The reading of a field changes nothing.
  pub Emits-read :
      {A : Type 0} (f : Program → M A) {cs : List Cell}
      → ((p : Program) → IsSized p → Returns (Appends p cs) (f p env p))
      → Emits env (λ env p. f p env p) cs
  Emits-read f h = record { run = h }

module _ {env : Env} (ample : IsAmple env) where
  pub grow-Emits : Emits env program_grow_img []
  unfolding program_grow_img
  grow-Emits = record {
    run = λ p s. rw (ample _) (
        returns (record {
          img = rw append-nil;
          fixups = rw append-nil;
          size = omega arith;
          same = refl;
        }));
  }

  pub room-Emits : Emits env make_room []
  room-Emits = record { run = λ p s. room_if (p.img_size == p.img_cap) p (grow-Emits.run p s) }

  append-Emits : (i : Insn) → Emits env (λ env p. ok (tt, append_insn i p)) (plain i ∷ [])
  append-Emits i = record {
    run = λ p s. returns (record { img = refl; fixups = rw append-nil; size = refl; same = refl });
  }

  pub program_emit-Emits : (i : Insn) → Emits env (program_emit i) (plain i ∷ [])
  unfolding program_emit
  program_emit-Emits i = Emits->> room-Emits (append-Emits i)

  pub fixup-Emits :
      (t : FixupType) (i : Insn) (a : ℕ)
      → Emits env (do at ← here; add_fixup t at a; program_emit i) (pending t a i ∷ [])
  unfolding add_fixup
  fixup-Emits t i a = record {
    run = λ p s.
        rw (ample 24) (with_fixup t a i p ((program_emit-Emits i).run (record p { fixups = _ }) s));
  }

  pub program_emit_fixup-Emits :
      (t : FixupType) (i : Insn) (a : ℕ) → Emits env (program_emit_fixup t i a) (pending t a i ∷ [])
  unfolding program_emit_fixup
  program_emit_fixup-Emits t i a = Emits->> room-Emits (fixup-Emits t i a)
