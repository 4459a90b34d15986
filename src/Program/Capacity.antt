-- ===== src/Program/Capacity.antt =====
-- The room of the program under generation.
use bpfilter_study.Base.{
  ℕ, ◌/◌, ◌≤◌, ◌^◌, ◌≡◌, ◌+◌, ◌<◌, arith, true, ◌*◌, ◌-◌, bit_or-le, false, le-bit_or, ◌%◌, refl,
  ◌++◌, ◌∷◌, [],
}
use bpfilter_study.Program.{
  Env, Program, grown_cap, round_next_power_of_2, Result, or_shift, ok, err, enomem,
}
use bpfilter_study.Insn.{Insn}

-- A step of the rounding.
step-ge : (a k b : ℕ) → b ≤ a → b ≤ or_shift a k
step-ge a k b h = omega (arith, le-bit_or a (a / 2 ^ k))

step-le : (a k b n : ℕ) → a / 2 ^ k ≡ b → b ≤ a → a ≤ n → or_shift a k ≤ n + n
step-le a k b n e l h = omega (arith, bit_or-le a (a / 2 ^ k), e)

-- Rounding up gives no less, for sizes that do not wrap around.
pub round_next_power_of_2-le : (v : ℕ) → 1 ≤ v → v ≤ 2 ^ 31 → v ≤ round_next_power_of_2 v
unfolding round_next_power_of_2
round_next_power_of_2-le v l h =
    let a = (v + 2 ^ 64 - 1) % 2 ^ 64 in
    let b = or_shift a 1 in
    let c = or_shift b 2 in
    let d = or_shift c 4 in
    let f = or_shift d 8 in
    let g = or_shift f 16 in
    let ea : a + 1 ≡ v = omega arith in
    let up : a ≤ g =
      step-ge f 16 a
        (step-ge d 8 a (step-ge c 4 a (step-ge b 2 a (step-ge a 1 a (omega arith))))) in
    let hb : b ≤ 2 ^ 32 = step-le a 1 (a / 2) (2 ^ 31) refl (omega arith) (omega arith) in
    let hc : c ≤ 2 ^ 33 = step-le b 2 (b / 4) (2 ^ 32) refl (omega arith) hb in
    let hd : d ≤ 2 ^ 34 = step-le c 4 (c / 16) (2 ^ 33) refl (omega arith) hc in
    let hf : f ≤ 2 ^ 35 = step-le d 8 (d / 256) (2 ^ 34) refl (omega arith) hd in
    let hg : g ≤ 2 ^ 36 = step-le f 16 (f / 65536) (2 ^ 35) refl (omega arith) hf in wraps g up hg
  where
    wraps : (g : ℕ) → (v + 2 ^ 64 - 1) % 2 ^ 64 ≤ g → g ≤ 2 ^ 36 → v ≤ (g + 1) % 2 ^ 64
    wraps g up hg = omega arith

-- Nothing is allocated yet, or the instructions fit into what is.
pub data IsRoomy (p : Program) : Type 0 where
  unallocated : p.img_null ≡ true → p.img_size ≡ 0 → p.img_cap ≡ 0 → IsRoomy p
  allocated : p.img_null ≡ false → 1 ≤ p.img_cap → p.img_size ≤ p.img_cap → IsRoomy p

-- There is room for one more instruction, or there is no memory for more room.
pub data HasRoom (env : Env) (p : Program) : Result (Unit {0} × Program) → Type 0 where
  has_room :
      {q : Program}
      → q.img_size < q.img_cap
      → q.img_size ≡ p.img_size
      → q.img ≡ p.img
      → q.img_null ≡ false
      → HasRoom env p (ok (tt, q))
  no_room : env.alloc (grown_cap p * 8) ≡ false → HasRoom env p (err enomem)

capacity-size : (p : Program) → IsRoomy p → p.img_size ≤ p.img_cap
capacity-size p (unallocated n s c) = omega (arith, s)
capacity-size p (allocated n l s) = s

-- What `program_emit` does: one instruction more, within the room, or no memory.
pub data Emitted (env : Env) (i : Insn) (p : Program) : Result (Unit {0} × Program) → Type 0 where
  emitted :
      {q : Program}
      → q.img ≡ p.img ++ i ∷ []
      → q.img_size ≡ p.img_size + 1
      → IsRoomy q
      → Emitted env i p (ok (tt, q))
  not_emitted : env.alloc (grown_cap p * 8) ≡ false → Emitted env i p (err enomem)
