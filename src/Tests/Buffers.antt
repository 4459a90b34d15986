-- ===== src/Tests/Buffers.antt =====
-- Runs of the theorem about the buffer that grows.
use bpfilter_study.Base.{
  List, Option, none, ℕ, zero, suc, length, some, ◌∷◌, [], take, ◌≡◌, ◌≤◌, refl, ap, sym, ◌∙◌,
  arith,
}
use bpfilter_study.Dynbuf.{Realloc, Dynbuf, dynbuf_write}
use bpfilter_study.Dynbuf.Append.{IsRealloc, Appended, with_block, dynbuf_write-Appended}

abbrev filled : ℕ → List ℕ → List ℕ
filled zero bs = []
filled (suc n) [] = 0 ∷ filled n []
filled (suc n) (b ∷ bs) = b ∷ filled n bs

abbrev zeroing : Realloc
zeroing none n = some (filled n [])
zeroing (some bs) n = some (filled n bs)

same_block : {bs cs : List ℕ} → some bs ≡ some cs → bs ≡ cs
same_block e = ap (λ o. elim o [ none ↦ [] | some bs ↦ bs ]) e

length-filled : (n : ℕ) (bs : List ℕ) → length (filled n bs) ≡ n
length-filled zero bs = refl
length-filled (suc n) [] = ap suc (length-filled n [])
length-filled (suc n) (b ∷ bs) = ap suc (length-filled n bs)

take-filled : (k n : ℕ) (bs : List ℕ) → k ≤ length bs → k ≤ n → take k (filled n bs) ≡ take k bs
take-filled zero n bs h l = refl
take-filled (suc k) n [] h l = absurd (omega (arith, h))
take-filled (suc k) zero (b ∷ bs) h l = absurd (omega (arith, l))
take-filled (suc k) (suc n) (b ∷ bs) h l =
    ap (λ l. b ∷ l) (take-filled k n bs (omega arith) (omega arith))

zeroing-IsRealloc : IsRealloc zeroing
zeroing-IsRealloc = record {
  sized = λ block n cs e. by_block block n cs e;
  kept = λ bs n cs k e h l. ap (take k) (sym (same_block e)) ∙ take-filled k n bs h l;
}
  where
    by_block :
        (block : Option (List ℕ)) (n : ℕ) (cs : List ℕ) → zeroing block n ≡ some cs → length cs ≡ n
    by_block none n cs e = ap length (sym (same_block e)) ∙ length-filled n []
    by_block (some bs) n cs e = ap length (sym (same_block e)) ∙ length-filled n bs

-- Two bytes in a block of three.
abbrev two_of_three : Dynbuf
two_of_three = record { len = 2; rem = 1; block = some (7 ∷ 8 ∷ 0 ∷ []) }

dynbuf_write-Appended_example :
    Appended two_of_three (1 ∷ 2 ∷ 3 ∷ []) (dynbuf_write zeroing two_of_three (1 ∷ 2 ∷ 3 ∷ []))
dynbuf_write-Appended_example =
    dynbuf_write-Appended zeroing-IsRealloc two_of_three (1 ∷ 2 ∷ 3 ∷ [])
      (with_block (7 ∷ 8 ∷ 0 ∷ []) refl refl) (omega arith)
