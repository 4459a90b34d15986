-- ===== src/Cgen/Ip4/Prefix.antt =====
-- The mask of an IPv4 prefix as a number.
use bpfilter_study.Base.{
  ℕ, Bool, List, ◌≡◌, ◌≤◌, ◌<◌, ◌^◌, true, ◌∷◌, ◌*◌, ◌-◌, ◌==◌, arith, refl, suc, ◌&&◌, ◌+◌, ==_iff,
  Bool-cases, [], zero, inl, inr,
}
use bpfilter_study.Cgen.Ip4.{ip4_prefix_to_mask, prefix_to_mask}
use mathlib.Core.Bool.{and-eq-true_iff}

-- The number that bytes in network order stand for.
abbrev pub network_value : ℕ → List ℕ → ℕ
network_value n [] = n
network_value n (b ∷ bs) = network_value (n * 256 + b) bs

is_prefix : ℕ → Bool
unfolding ip4_prefix_to_mask prefix_to_mask
is_prefix n = network_value 0 (ip4_prefix_to_mask n) == 2 ^ 32 - 2 ^ (32 - n)

abbrev all_below : ℕ → (ℕ → Bool) → Bool
all_below zero f = true
all_below (suc n) f = f n && all_below n f

below : (n : ℕ) (f : ℕ → Bool) (i : ℕ) → i < n → all_below n f ≡ true → f i ≡ true
below zero f i l h = absurd (omega arith)
below (suc n) f i l h =
    let both = (and-eq-true_iff (f n) (all_below n f)).0 h in
    elim (Bool-cases (i == n)) [
      | inl e ↦ rw ((==_iff i n).0 e) both.0
      | inr e ↦ below n f i (ground arith) both.1
    ]

lengths : all_below 33 is_prefix ≡ true
unfolding is_prefix
lengths = refl

-- The mask of a prefix of up to 32 bits has just its first bits set, in network order.
pub ip4_prefix_to_mask-network_value :
    (n : ℕ) → n ≤ 32 → network_value 0 (ip4_prefix_to_mask n) ≡ 2 ^ 32 - 2 ^ (32 - n)
unfolding is_prefix
ip4_prefix_to_mask-network_value n h =
    (==_iff (network_value 0 (ip4_prefix_to_mask n)) (2 ^ 32 - 2 ^ (32 - n))).0
      (below 33 is_prefix n (omega arith) lengths)
