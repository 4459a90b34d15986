-- ===== src/Dynbuf/Append.antt =====
-- What `dynbuf_write` of Dynbuf does to the bytes of the buffer (src/libbpfilter/dynbuf.c).
use bpfilter_study.Base.{
  List, Option, none, ℕ, zero, suc, if◌then◌else◌, length, some, ◌+◌, ◌%◌, ◌^◌, ◌==◌, ltb, ◌∷◌, [],
  ◌++◌, take, ◌≡◌, ◌≤◌, ◌<◌, refl, ap, sym, ◌∙◌, arith, Bool, true, false, ==_iff,
}
use bpfilter_study.Program.{enomem, round_next_power_of_2}
use bpfilter_study.Program.Capacity.{round_next_power_of_2-le}
use bpfilter_study.Dynbuf.{
  Realloc, Dynbuf, Outcome, written, failed, copy_to, new_cap, resized, dynbuf_grow, stored,
  append_to, dynbuf_write, memcpy, before,
}

-- `realloc()` gives a block of the size asked for, which starts with the bytes of the old one.
pub record IsRealloc (realloc : Realloc) : Type 0 where
  pub sized :
      (block : Option (List ℕ)) (n : ℕ) (cs : List ℕ) → realloc block n ≡ some cs → length cs ≡ n
  pub kept :
      (bs : List ℕ) (n : ℕ) (cs : List ℕ) (k : ℕ)
      → realloc (some bs) n ≡ some cs
      → k ≤ length bs
      → k ≤ n
      → take k cs ≡ take k bs

-- The buffer has no block and no room, or its block has the room that the buffer says.
pub data IsBuffer (b : Dynbuf) : Type 0 where
  without_block : b.block ≡ none → b.len ≡ 0 → b.rem ≡ 0 → IsBuffer b
  with_block : (bs : List ℕ) → b.block ≡ some bs → length bs ≡ b.len + b.rem → IsBuffer b

-- The bytes written so far.
abbrev block_contents : ℕ → Option (List ℕ) → List ℕ
block_contents n none = []
block_contents n (some bs) = take n bs

abbrev pub contents : Dynbuf → List ℕ
contents b = block_contents b.len b.block

data Copied (bs : List ℕ) (n : ℕ) (xs : List ℕ) : Option (List ℕ) → Type 0 where
  copied :
      {cs : List ℕ}
      → length cs ≡ length bs
      → take (n + length xs) cs ≡ take n bs ++ xs
      → Copied bs n xs (some cs)

take-suc : {n m : ℕ} (b : ℕ) (cs : List ℕ) → n ≡ suc m → take n (b ∷ cs) ≡ b ∷ take m cs
take-suc b cs e = ap (λ n. take n (b ∷ cs)) e

before-Copied :
    {bs xs : List ℕ} (b : ℕ) {n : ℕ} {r : Option (List ℕ)}
    → Copied bs n xs r
    → Copied (b ∷ bs) (suc n) xs (before b r)
before-Copied {xs} b {n} (copied {cs} l t) =
    copied {cs = b ∷ cs} (ap suc l) (take-suc b cs (omega arith) ∙ ap (λ l. b ∷ l) t)

first-Copied :
    {bs xs : List ℕ} (b x : ℕ) {r : Option (List ℕ)}
    → Copied bs 0 xs r
    → Copied (b ∷ bs) 0 (x ∷ xs) (before x r)
first-Copied b x (copied {cs} l t) =
    copied {cs = x ∷ cs} (ap suc l) (take-suc x cs (omega arith) ∙ ap (λ l. x ∷ l) t)

-- A copy that fits.
copy_to-Copied :
    (bs : List ℕ) (n : ℕ) (xs : List ℕ)
    → n + length xs ≤ length bs
    → Copied bs n xs (copy_to bs n xs)
unfolding copy_to
copy_to-Copied bs zero [] h = copied refl refl
copy_to-Copied [] zero (x ∷ xs) h = absurd (omega (arith, h))
copy_to-Copied (b ∷ bs) zero (x ∷ xs) h = first-Copied b x (copy_to-Copied bs zero xs (omega arith))
copy_to-Copied [] (suc n) xs h = absurd (omega (arith, h))
copy_to-Copied (b ∷ bs) (suc n) xs h = before-Copied b (copy_to-Copied bs n xs (omega arith))

-- The bytes are appended to a well-formed buffer, or there is no memory and nothing changes.
pub data Appended (b : Dynbuf) (xs : List ℕ) : Outcome → Type 0 where
  appended : {c : Dynbuf} → contents c ≡ contents b ++ xs → IsBuffer c → Appended b xs (written c)
  no_memory : Appended b xs (failed enomem b)

round_next_power_of_2-lt : (v : ℕ) → round_next_power_of_2 v < 2 ^ 64
unfolding round_next_power_of_2
round_next_power_of_2-lt v = omega arith

-- There is room for more bytes behind the same contents, or there is no memory for it.
data HasRoomFor (b : Dynbuf) (n : ℕ) : Outcome → Type 0 where
  room :
      {c : Dynbuf}
      → contents c ≡ contents b
      → IsBuffer c
      → n ≤ c.rem
      → c.len + c.rem < 2 ^ 64
      → HasRoomFor b n (written c)
  no_room : HasRoomFor b n (failed enomem b)

append_nil : {A : Type 0} (xs : List A) → xs ≡ xs ++ []
append_nil [] = refl
append_nil (x ∷ xs) = ap (λ l. x ∷ l) (append_nil xs)

module _ {b c : Dynbuf} (same : contents c ≡ contents b) (small : c.len + c.rem < 2 ^ 64) where
  stored_block :
      (bs xs : List ℕ) {r : Option (List ℕ)}
      → c.block ≡ some bs
      → Copied bs c.len xs r
      → length bs ≡ c.len + c.rem
      → length xs ≤ c.rem
      → Appended b xs (stored c (length xs) (elim r [ none ↦ none | some cs ↦ some (some cs) ]))
  stored_block bs xs e (copied {cs} l t) h k =
      let s : (c.len + length xs) % 2 ^ 64 ≡ c.len + length xs = omega arith in
      appended
        (ap (λ n. take n cs) s ∙ t ∙ ap (λ l. l ++ xs) (ap (block_contents c.len) (sym e) ∙ same))
        (with_block cs refl (omega arith))

  stored_without :
      (xs : List ℕ)
      → c.block ≡ none
      → c.len ≡ 0
      → c.rem ≡ 0
      → length xs ≤ c.rem
      → Appended b xs (stored c (length xs) (memcpy none c.len xs))
  stored_without [] e l m h =
      appended (ap (block_contents c.len) (sym e) ∙ same ∙ append_nil (contents b))
        (without_block refl (omega arith) (omega arith))
  stored_without (x ∷ xs) e l m h = absurd (omega arith)

  stored-Appended :
      (xs : List ℕ)
      → IsBuffer c
      → length xs ≤ c.rem
      → Appended b xs (stored c (length xs) (memcpy c.block c.len xs))
  stored-Appended xs (without_block e l m) h = rw e (stored_without xs e l m h)
  stored-Appended xs (with_block bs e l) h =
      rw e (stored_block bs xs e (copy_to-Copied bs c.len xs (omega arith)) l h)

module _ {realloc : Realloc} (law : IsRealloc realloc) where
  kept_contents :
      (b : Dynbuf) (n : ℕ) (cs : List ℕ)
      → IsBuffer b
      → realloc b.block n ≡ some cs
      → b.len ≤ n
      → take b.len cs ≡ contents b
  kept_contents b n cs (without_block e l m) r h =
      ap (λ n. take n cs) l ∙ sym (ap (block_contents b.len) e)
  kept_contents b n cs (with_block bs e l) r h =
      law.kept bs n cs b.len (ap (λ o. realloc o n) (sym e) ∙ r) (omega arith) h
      ∙ sym (ap (block_contents b.len) e)

  resized-HasRoomFor :
      (b : Dynbuf) (n size : ℕ) (r : Option (List ℕ))
      → realloc b.block size ≡ r
      → IsBuffer b
      → b.len + b.rem + n ≤ size
      → size < 2 ^ 64
      → HasRoomFor b n (resized b size r)
  resized-HasRoomFor b n size none e w h k = no_room
  resized-HasRoomFor b n size (some cs) e w h k =
      room (kept_contents b size cs w e (omega arith))
        (with_block cs refl (omega (arith, law.sized b.block size cs e))) (omega arith)
        (omega arith)

  new_cap-ge :
      (b : Dynbuf) (n : ℕ) → 1 ≤ n → b.len + b.rem + n ≤ 2 ^ 31 → b.len + b.rem + n ≤ new_cap b n
  new_cap-ge b n l h =
      let e : (b.len + b.rem + n) % 2 ^ 64 ≡ b.len + b.rem + n = omega arith in
      rw e (round_next_power_of_2-le (b.len + b.rem + n) (omega arith) h)

  dynbuf_grow-HasRoomFor :
      (b : Dynbuf) (n : ℕ)
      → IsBuffer b
      → 1 ≤ n
      → b.len + b.rem + n ≤ 2 ^ 31
      → HasRoomFor b n (dynbuf_grow realloc b n)
  unfolding dynbuf_grow
  dynbuf_grow-HasRoomFor b n w l h = by_test (n == 0) refl
    where
      by_test :
          (t : Bool)
          → (n == 0) ≡ t
          → HasRoomFor b n
              (if t then written b else resized b (new_cap b n) (realloc b.block (new_cap b n)))
      by_test true e = absurd (omega (arith, (==_iff n 0).0 e))
      by_test false e =
          resized-HasRoomFor b n (new_cap b n) _ refl w (new_cap-ge b n l h)
            (round_next_power_of_2-lt ((b.len + b.rem + n) % 2 ^ 64))

  room_for :
      (b : Dynbuf) (n : ℕ) (t : Bool)
      → ltb b.rem n ≡ t
      → IsBuffer b
      → b.len + b.rem + n ≤ 2 ^ 31
      → HasRoomFor b n (if t then dynbuf_grow realloc b n else written b)
  room_for b n true e w h = dynbuf_grow-HasRoomFor b n w (ground arith) h
  room_for b n false e w h = room refl w (ground arith) (omega arith)

  append_behind :
      {b : Dynbuf} (xs : List ℕ) {o : Outcome}
      → HasRoomFor b (length xs) o
      → Appended b xs (append_to xs o)
  append_behind xs (room s w h k) = stored-Appended s k xs w h
  append_behind xs no_room = no_memory

  -- For a `realloc()` that keeps the bytes of the block, and up to 2 ^ 31 bytes: a write to a
  -- well-formed buffer appends the bytes to those that the buffer holds and leaves it well-formed,
  -- or fails with ENOMEM and changes nothing. It never writes outside the block.
  pub dynbuf_write-Appended :
      (b : Dynbuf) (xs : List ℕ)
      → IsBuffer b
      → b.len + b.rem + length xs ≤ 2 ^ 31
      → Appended b xs (dynbuf_write realloc b xs)
  unfolding dynbuf_write
  dynbuf_write-Appended b xs w h =
      append_behind xs (room_for b (length xs) (ltb b.rem (length xs)) refl w h)
