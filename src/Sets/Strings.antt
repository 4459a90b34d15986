-- ===== src/Sets/Strings.antt =====
-- strtok_r() of the C library, and bf_trim() of src/libbpfilter/helper.c.
use bpfilter_study.Base.{
  ℕ, Bool, false, not, ◌||◌, ◌&&◌, Option, none, some, List, [], ◌∷◌, ◌++◌, ◌==◌, leb,
  if◌then◌else◌,
}
use mathlib.Core.List.{reverse}

abbrev pub take_while : (ℕ → Bool) → List ℕ → List ℕ
take_while p [] = []
take_while p (c ∷ s) = if p c then c ∷ take_while p s else []

abbrev pub drop_while : (ℕ → Bool) → List ℕ → List ℕ
drop_while p [] = []
drop_while p (c ∷ s) = if p c then drop_while p s else c ∷ s

abbrev pub is_one_of : List ℕ → ℕ → Bool
is_one_of [] c = false
is_one_of (d ∷ ds) c = (d == c) || is_one_of ds c

abbrev pub tail_of : List ℕ → List ℕ
tail_of [] = []
tail_of (c ∷ s) = s

-- A token, the text up to its end, and the text behind the delimiter that ends it.
pub record Token : Type 0 where
  pub seen : List ℕ
  pub token : List ℕ
  pub rest : List ℕ

-- The delimiters in front of the token are skipped, and the one behind it is overwritten.
abbrev pub token_of : List ℕ → List ℕ → List ℕ → Option Token
token_of delims skipped [] = none
token_of delims skipped (c ∷ s) = some (record {
  seen = skipped ++ take_while (λ d. not (is_one_of delims d)) (c ∷ s);
  token = take_while (λ d. not (is_one_of delims d)) (c ∷ s);
  rest = tail_of (drop_while (λ d. not (is_one_of delims d)) (c ∷ s));
})

unfoldable pub strtok : List ℕ → List ℕ → Option Token
strtok delims s =
    token_of delims (take_while (is_one_of delims) s) (drop_while (is_one_of delims) s)

-- isspace() in the C locale
abbrev pub is_space : ℕ → Bool
is_space c = (c == 32) || (leb 9 c && leb c 13)

unfoldable pub ltrim : List ℕ → List ℕ
ltrim s = drop_while is_space s

-- For a text that does not start with a space, as `bf_trim()` gives it.
unfoldable pub rtrim : List ℕ → List ℕ
rtrim s = reverse (drop_while is_space (reverse s))

unfoldable pub trim : List ℕ → List ℕ
unfolding ltrim rtrim
trim s = rtrim (ltrim s)
