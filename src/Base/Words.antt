-- ===== src/Base/Words.antt =====
-- Machine words as native numbers. A negative value stands as its two's complement pattern.
use Prim.Native.Nat.{ℕ, ◌+◌, ◌-◌, ◌*◌, ◌/◌, ◌%◌, ◌^◌, ◌<◌}
use mathlib.Core.Path.{◌≡◌}
use mathlib.Core.List.{List, [], ◌∷◌}
use native.Mathlib.Omega.{arith}
use bpfilter_study.Base.Tests.{ltb, if◌then◌else◌}

-- The 64-bit pattern of a signed 32-bit and of a signed 16-bit value.
abbrev pub sext32 : ℕ → ℕ
sext32 v = if ltb v (2 ^ 31) then v else v + (2 ^ 64 - 2 ^ 32)

abbrev pub sext16 : ℕ → ℕ
sext16 v = if ltb v (2 ^ 15) then v else v + (2 ^ 64 - 2 ^ 16)

-- The value of a list of bytes, the least significant first.
abbrev pub little_endian : List ℕ → ℕ
little_endian [] = 0
little_endian (b ∷ bs) = b + 256 * little_endian bs

-- `htobe16()` of a little-endian host.
abbrev pub htobe16 : ℕ → ℕ
htobe16 v = v % 256 * 256 + v / 256 % 256

-- The immediate field of an instruction holds the low 32 bits of what it is given.
abbrev pub s32 : ℕ → ℕ
s32 v = v % 2 ^ 32

pub sext32_small : (v : ℕ) → v < 2 ^ 31 → sext32 v ≡ v
sext32_small v h = ground arith
