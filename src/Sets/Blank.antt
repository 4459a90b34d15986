-- ===== src/Sets/Blank.antt =====
-- The loop of bf_set_new_from_raw() in src/libbpfilter/set.c on a text that begins with a blank
-- element.
use bpfilter_study.Base.{
  ℕ, zero, suc, ◌≡◌, refl, Bool, true, false, not, some, List, [], ◌∷◌, ◌++◌, arith, Bool-cases,
  inl, inr, ap, text, ◌∙◌,
}
use bpfilter_study.Chain.{Set}
use bpfilter_study.Sets.{endless, Parser, elems_from}
use bpfilter_study.Sets.Strings.{
  Token, drop_while, is_one_of, strtok, take_while, tail_of, token_of, trim,
}
use mathlib.Core.List.{append-nil}
use mathlib.Core.Path.{subst}

-- No character satisfies the test, or every one.
abbrev Every : (ℕ → Bool) → List ℕ → Type 0
Every p [] = Unit
Every p (c ∷ s) = (p c ≡ true) × Every p s

take_while-Every : (p : ℕ → Bool) (s : List ℕ) → Every p (take_while p s)
take_while-Every p [] = tt
take_while-Every p (c ∷ s) = elim (Bool-cases (p c)) [
  | inl e ↦ rw e (e, take_while-Every p s)
  | inr e ↦ rw e tt
]

take_while-append :
    (p : ℕ → Bool) (s t : List ℕ) → Every p s → take_while p (s ++ t) ≡ s ++ take_while p t
take_while-append p [] t a = refl
take_while-append p (c ∷ s) t a = rw (a.0, take_while-append p s t a.1) refl

drop_while-append :
    (p : ℕ → Bool) (s t : List ℕ) → Every p s → drop_while p (s ++ t) ≡ drop_while p t
drop_while-append p [] t a = refl
drop_while-append p (c ∷ s) t a = rw (a.0, drop_while-append p s t a.1) refl

take_while_all : (p : ℕ → Bool) (s : List ℕ) → Every p s → take_while p s ≡ s
take_while_all p [] a = refl
take_while_all p (c ∷ s) a = rw (a.0, take_while_all p s a.1) refl

pub drop_while-head :
    (p : ℕ → Bool) (s : List ℕ) {c : ℕ} {t : List ℕ} → drop_while p s ≡ c ∷ t → p c ≡ false
drop_while-head p [] e = absurd (cc)
drop_while-head p (d ∷ s) {c} {t} e = elim (Bool-cases (p d)) [
  | inl h ↦ drop_while-head p s (rw h at e)
  | inr h ↦ ground arith
]

-- What strtok_r() finds in a text that ends with its first token.
record Again (delims seen token : List ℕ) : Type 0 where
  found : Token
  at : strtok delims seen ≡ some found
  same_seen : found.seen ≡ seen
  same_token : found.token ≡ token

module _ (delims : List ℕ) where
  abbrev is : ℕ → Bool
  is = is_one_of delims

  abbrev is_not : ℕ → Bool
  is_not d = not (is_one_of delims d)

  ends_there :
      (skipped : List ℕ) (c : ℕ) (tl : List ℕ)
      → Every is skipped
      → is c ≡ false
      → Every is_not tl
      → Again delims (skipped ++ c ∷ tl) (c ∷ tl)
  unfolding strtok
  ends_there skipped c tl a out b = record {
    found = record {
      seen = skipped ++ c ∷ tl;
      token = c ∷ tl;
      rest = tail_of (drop_while is_not (c ∷ tl));
    };
    at =
        rw
          (
            take_while-append is skipped (c ∷ tl) a,
            drop_while-append is skipped (c ∷ tl) a,
            out,
            append-nil,
          )
          (rw (out, take_while_all is_not tl b) refl);
    same_seen = refl;
    same_token = refl;
  }

  -- A text that is given to strtok_r() again ends at its first token, which is found again.
  strtok-Again : (s : List ℕ) {t : Token} → strtok delims s ≡ some t → Again delims t.seen t.token
  unfolding strtok
  strtok-Again s {t} e = by_body (drop_while is s) refl e
    where
      some_eq : {u v : Token} → some u ≡ some v → u ≡ v
      some_eq e = cc

      by_body :
          (body : List ℕ)
          → drop_while is s ≡ body
          → token_of delims (take_while is s) body ≡ some t
          → Again delims t.seen t.token
      by_body [] d e = absurd (cc)
      by_body (c ∷ body) d e =
          let out : is c ≡ false = drop_while-head is s d in
          subst (λ (u : Token). Again delims u.seen u.token) (some_eq (rw out at e))
            (ends_there (take_while is s) c (take_while is_not body) (take_while-Every is s) out
              (take_while-Every is_not body))

-- If the first element of a set's text is blank, the loop of bf_set_new_from_raw() does not end,
-- however long it runs: the text is given to strtok_r() again, which finds the blank element again.
pub elems_from-endless :
    (parse : Parser) (fuel : ℕ) (s : Set) (payload saved : List ℕ) (t : Token) (l : List Bool)
    → strtok (text "{};\n") payload ≡ some t
    → trim t.token ≡ []
    → elems_from parse fuel s (some payload) saved l ≡ endless
unfolding elems_from
elems_from-endless parse zero s payload saved t l found blank = refl
elems_from-endless parse (suc fuel) s payload saved t l found blank =
    let a = strtok-Again (text "{};\n") payload found in
    rw (found, elems_from, blank)
      (elems_from-endless parse fuel s t.seen t.rest a.found l a.at (ap trim a.same_token ∙ blank))
