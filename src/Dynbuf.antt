-- ===== src/Dynbuf.antt =====
-- The buffer that grows, src/libbpfilter/dynbuf.c.
pub mod Append
use bpfilter_study.Base.{
  List, Option, none, ℕ, zero, suc, if◌then◌else◌, length, some, ◌+◌, ◌-◌, ◌%◌, ◌^◌, ◌==◌, ltb, ◌∷◌,
  [],
}
use bpfilter_study.Program.{Error, enomem, round_next_power_of_2}

-- What `realloc()` gives for a block, or NULL, and a size: a block, or NULL.
abbrev pub Realloc : Type 0
Realloc = Option (List ℕ) → ℕ → Option (List ℕ)

-- `block` is the field `data`: the block of memory, or NULL.
pub record Dynbuf : Type 0 where
  pub len : ℕ
  pub rem : ℕ
  pub block : Option (List ℕ)

abbrev pub dynbuf_default : Dynbuf
dynbuf_default = record { len = 0; rem = 0; block = none }

-- A call returns 0 or an error with the buffer as it is then, or it writes out of bounds.
pub data Outcome : Type 0 where
  written : Dynbuf → Outcome
  failed : Error → Dynbuf → Outcome
  out_of_bounds : Outcome

abbrev before : ℕ → Option (List ℕ) → Option (List ℕ)
before b none = none
before b (some bs) = some (b ∷ bs)

-- `memcpy()` to an offset in a block; there is no result if it leaves the block.
unfoldable pub copy_to : List ℕ → ℕ → List ℕ → Option (List ℕ)
copy_to bs zero [] = some bs
copy_to [] zero (x ∷ xs) = none
copy_to (b ∷ bs) zero (x ∷ xs) = before x (copy_to bs zero xs)
copy_to [] (suc n) xs = none
copy_to (b ∷ bs) (suc n) xs = before b (copy_to bs n xs)

-- No bytes may be copied to NULL.
abbrev pub memcpy : Option (List ℕ) → ℕ → List ℕ → Option (Option (List ℕ))
memcpy none n [] = some none
memcpy none n (x ∷ xs) = none
memcpy (some bs) n xs = elim (copy_to bs n xs) [ none ↦ none | some cs ↦ some (some cs) ]

abbrev pub new_cap : Dynbuf → ℕ → ℕ
new_cap b n = round_next_power_of_2 ((b.len + b.rem + n) % 2 ^ 64)

-- `bf_realloc()` leaves the block alone if it fails.
abbrev pub resized : Dynbuf → ℕ → Option (List ℕ) → Outcome
resized b size none = failed enomem b
resized b size (some bs) =
    written (record b { rem = (size + 2 ^ 64 - b.len) % 2 ^ 64; block = some bs })

unfoldable pub dynbuf_grow : Realloc → Dynbuf → ℕ → Outcome
dynbuf_grow realloc b n =
    if n == 0 then written b else resized b (new_cap b n) (realloc b.block (new_cap b n))

abbrev pub stored : Dynbuf → ℕ → Option (Option (List ℕ)) → Outcome
stored b n none = out_of_bounds
stored b n (some block) =
    written
      (record { len = (b.len + n) % 2 ^ 64; rem = (b.rem + 2 ^ 64 - n) % 2 ^ 64; block = block })

-- `memcpy()` and what follows it, unless the buffer could not grow.
abbrev pub append_to : List ℕ → Outcome → Outcome
append_to xs (written b) = stored b (length xs) (memcpy b.block b.len xs)
append_to xs (failed e b) = failed e b
append_to xs out_of_bounds = out_of_bounds

unfoldable pub dynbuf_write : Realloc → Dynbuf → List ℕ → Outcome
dynbuf_write realloc b xs =
    append_to xs (if ltb b.rem (length xs) then dynbuf_grow realloc b (length xs) else written b)

-- The block goes to the caller.
abbrev pub dynbuf_take : Dynbuf → Option (List ℕ) × Dynbuf
dynbuf_take b = (b.block, record { len = 0; rem = 0; block = none })

-- `free()` of the block is the caller's and the buffer's last use of it.
abbrev pub dynbuf_clean : Dynbuf → Dynbuf
dynbuf_clean b = record { len = 0; rem = 0; block = none }
