-- ===== src/Sets/Ends.antt =====
-- The loops of src/libbpfilter/set.c over texts end.
use bpfilter_study.Base.{
  ℕ, zero, suc, ◌+◌, ◌<◌, ◌≤◌, ◌≡◌, ◌≢◌, refl, Bool, true, false, Option, none, some, List, [], ◌∷◌,
  ◌++◌, arith, length, ◌==◌, Bool-cases, inl, inr, text, not, ◌⊎◌, if◌then◌else◌, ap,
}
use bpfilter_study.Matcher.{MatcherType, op_in}
use bpfilter_study.Chain.{Set}
use bpfilter_study.Sets.{
  Run, ok, err, M, Parser, allocate, and_then, component, elem_from, elems_from, key_from,
  key_token, no_component_left, set_new_from_raw, set_parse_elem, set_parse_key, with_bytes,
  with_type, max_comps, pure, with_ops, element, fail, matcher_type_from_str, einval, trimmed,
}
use bpfilter_study.Sets.Strings.{
  Token, drop_while, strtok, tail_of, is_one_of, trim, token_of, take_while,
}
use bpfilter_study.Sets.Keyed.{
  Made, made, no_component, set_new-Made, too_many, unsupported, mixed, no_memory,
}
use bpfilter_study.Matcher.Ops.{matcher_get_ops}
use bpfilter_study.Sets.Blank.{drop_while-head}
use mathlib.Core.Path.{subst}

-- A run that gives a result or an error.
pub data Ends {A : Type 0} : Run A → Type 0 where
  ends_ok : {a : A} {l : List Bool} → Ends (ok a l)
  ends_err : {e : ℕ} → Ends (err e)

Ends->>= :
    {A B : Type 0} {r : Run A} (k : A → M B)
    → Ends r
    → ((a : A) (l : List Bool) → Ends (k a l))
    → Ends (and_then r k)
Ends->>= k (ends_ok {a} {l}) h = h a l
Ends->>= k ends_err h = ends_err

allocate-Ends : (l : List Bool) → Ends (allocate l)
unfolding allocate
allocate-Ends [] = ends_ok
allocate-Ends (true ∷ l) = ends_ok
allocate-Ends (false ∷ l) = ends_err

length-drop_while : (p : ℕ → Bool) (s : List ℕ) → length (drop_while p s) ≤ length s
length-drop_while p [] = omega arith
length-drop_while p (c ∷ s) = elim (Bool-cases (p c)) [
  | inl e ↦ rw e (omega (arith, length-drop_while p s))
  | inr e ↦ rw e (omega arith)
]

length-tail_of : (s : List ℕ) → length (tail_of s) ≤ length s
length-tail_of [] = omega arith
length-tail_of (c ∷ s) = omega arith

-- Behind a token less is left.
pub strtok-lt :
    (delims s : List ℕ) {t : Token} → strtok delims s ≡ some t → length t.rest < length s
unfolding strtok
strtok-lt delims s {t} e = by_body (drop_while is s) refl e
  where
    is : ℕ → Bool
    is = is_one_of delims

    is_not : ℕ → Bool
    is_not d = not (is_one_of delims d)

    some_eq : {u v : Token} → some u ≡ some v → u ≡ v
    some_eq e = cc

    by_body :
        (body : List ℕ)
        → drop_while is s ≡ body
        → token_of delims (take_while is s) body ≡ some t
        → length t.rest < length s
    by_body [] d e = absurd (cc)
    by_body (c ∷ body) d e =
        let out : is c ≡ false = drop_while-head is s d in
        subst (λ (u : Token). length u.rest < length s) (some_eq (rw out at e))
          (omega (
            arith,
            length-tail_of (drop_while is_not body),
            length-drop_while is_not body,
            length-drop_while is s,
            ap length d,
          ))

with_type-Ends :
    (next : M (List MatcherType)) (o : Option MatcherType) (l : List Bool)
    → Ends (next l)
    → Ends (with_type next o l)
with_type-Ends next none l e = ends_err
with_type-Ends next (some type) l e = Ends->>= (λ r. pure (type ∷ r)) e (λ r k. ends_ok)

key_token-Ends :
    (next : ℕ → List ℕ → M (List MatcherType)) (n : ℕ) (o : Option Token) (l : List Bool)
    → ((t : Token) → o ≡ some t → Ends (next (n + 1) t.rest l))
    → Ends (key_token next n o l)
key_token-Ends next n none l h = ends_ok
key_token-Ends next n (some t) l h = elim (Bool-cases (n == max_comps)) [
  | inl e ↦ rw e ends_err
  | inr e ↦
      rw e
        (with_type-Ends (next (n + 1) t.rest) (matcher_type_from_str (trim t.token)) l (h t refl))
]

key_from-Ends :
    (fuel n : ℕ) (s : List ℕ) (l : List Bool) → length s < fuel → Ends (key_from fuel n s l)
unfolding key_from
key_from-Ends zero n s l lt = absurd (omega arith)
key_from-Ends (suc fuel) n s l lt =
    key_token-Ends (key_from fuel) n (strtok (text "(),") s) l
      (λ t e. key_from-Ends fuel (n + 1) t.rest l (omega (arith, strtok-lt (text "(),") s e)))

set_parse_key-Ends : (raw : List ℕ) (l : List Bool) → Ends (set_parse_key (suc (length raw)) raw l)
unfolding set_parse_key
set_parse_key-Ends raw l = Ends->>= _ (allocate-Ends l) (λ _ l.
    Ends->>= _ (key_from-Ends (suc (length raw)) 0 raw l (omega arith)) (λ key l. by_length key l))
  where
    by_length :
        (key : List MatcherType) (l : List Bool)
        → Ends ((if length key == 0 then fail einval else pure key) l)
    by_length key l = elim (Bool-cases (length key == 0)) [
      | inl e ↦ rw e ends_err
      | inr e ↦ rw e ends_ok
    ]

Made-Ends :
    {name : Option ℕ} {key : List MatcherType} {l : List Bool} {r : Run Set}
    → Made name key l r
    → Ends r
Made-Ends (made a b m c d n k e z u) = ends_ok
Made-Ends (no_component e) = ends_err
Made-Ends (too_many e) = ends_err
Made-Ends (unsupported a b m u) = ends_err
Made-Ends (mixed a b m c d) = ends_err
Made-Ends (no_memory a b m) = ends_err

module _ (parse : Parser) where
  with_bytes-Ends :
      (next : M (List ℕ)) (o : Option (List ℕ)) (l : List Bool)
      → Ends (next l)
      → Ends (with_bytes parse next o l)
  with_bytes-Ends next none l e = ends_err
  with_bytes-Ends next (some bytes) l e = Ends->>= (λ r. pure (bytes ++ r)) e (λ r k. ends_ok)

  component-Ends :
      (next : List ℕ → M (List ℕ)) (type : MatcherType) (o : Option Token) (l : List Bool)
      → ((t : Token) → o ≡ some t → Ends (next t.rest l))
      → Ends (component parse next type o l)
  component-Ends next type none l h = ends_err
  component-Ends next type (some t) l h = by_ops (matcher_get_ops type op_in)
    where
      by_ops : (o : Option ℕ) → Ends (with_ops parse (next t.rest) type t.token o l)
      by_ops none = ends_err
      by_ops (some n) = with_bytes-Ends (next t.rest) (parse type (trim t.token)) l (h t refl)

  no_component_left-Ends : (o : Option Token) (l : List Bool) → Ends (no_component_left parse o l)
  no_component_left-Ends none l = ends_ok
  no_component_left-Ends (some t) l = ends_err

  elem_from-Ends :
      (fuel : ℕ) (key : List MatcherType) (s : List ℕ) (l : List Bool)
      → length s < fuel
      → Ends (elem_from parse fuel key s l)
  unfolding elem_from
  elem_from-Ends zero key s l lt = absurd (omega arith)
  elem_from-Ends (suc fuel) [] s l lt = no_component_left-Ends (strtok (text ",") s) l
  elem_from-Ends (suc fuel) (type ∷ key) s l lt =
      component-Ends (elem_from parse fuel key) type (strtok (text ",") s) l
        (λ t e. elem_from-Ends fuel key t.rest l (omega (arith, strtok-lt (text ",") s e)))

  set_parse_elem-Ends :
      (s : Set) (raw : List ℕ) (l : List Bool)
      → Ends (set_parse_elem parse (suc (length raw)) s raw l)
  unfolding set_parse_elem
  set_parse_elem-Ends s raw l = Ends->>= _ (allocate-Ends l) (λ _ l.
      Ends->>= _ (allocate-Ends l) (λ _ l.
        Ends->>= _ (elem_from-Ends (suc (length raw)) s.key raw l (omega arith))
          (λ e l. Ends->>= _ (allocate-Ends l) (λ _ l. ends_ok))))

  -- A round whose element is not blank, or that has forgotten the start of the text.
  element-Ends :
      (next : Set → Option (List ℕ) → List ℕ → M Set) (s : Set) (tmp : Option (List ℕ))
      (o : Option Token) (l : List Bool)
      → ((t : Token) → o ≡ some t → (s : Set) (l : List Bool) → Ends (next s none t.rest l))
      → (tmp ≡ none) ⊎ ((t : Token) → o ≡ some t → trim t.token ≢ [])
      → Ends (element parse next s tmp o l)
  element-Ends next s tmp none l h ok_start = ends_ok
  element-Ends next s tmp (some t) l h ok_start = by_text (trim t.token) refl
    where
      by_text : (e : List ℕ) → trim t.token ≡ e → Ends (trimmed parse next s tmp t e l)
      by_text [] e = elim ok_start [
        | inl start ↦ rw start (h t refl s l)
        | inr not_blank ↦ absurd (not_blank t refl e)
      ]
      by_text (c ∷ cs) e =
          Ends->>= (λ s'. next s' none t.rest) (set_parse_elem-Ends s (c ∷ cs) l)
            (λ s' k. h t refl s' k)

  elems_from-Ends :
      (fuel : ℕ) (s : Set) (saved : List ℕ) (l : List Bool)
      → length saved < fuel
      → Ends (elems_from parse fuel s none saved l)
  unfolding elems_from
  elems_from-Ends zero s saved l lt = absurd (omega arith)
  elems_from-Ends (suc fuel) s saved l lt =
      element-Ends (elems_from parse fuel) s none (strtok (text "{};\n") saved) l
        (λ t e s k.
          elems_from-Ends fuel s t.rest k (omega (arith, strtok-lt (text "{};\n") saved e)))
        (inl refl)

  start-Ends :
      (fuel : ℕ) (s : Set) (payload : List ℕ) (l : List Bool)
      → length payload < fuel
      → ((t : Token) → strtok (text "{};\n") payload ≡ some t → trim t.token ≢ [])
      → Ends (elems_from parse fuel s (some payload) [] l)
  unfolding elems_from
  start-Ends zero s payload l lt not_blank = absurd (omega arith)
  start-Ends (suc fuel) s payload l lt not_blank =
      element-Ends (elems_from parse fuel) s (some payload) (strtok (text "{};\n") payload) l
        (λ t e s k.
          elems_from-Ends fuel s t.rest k (omega (arith, strtok-lt (text "{};\n") payload e)))
        (inr not_blank)

  -- If the first element of the text is not blank, bf_set_new_from_raw() gives a set or an error:
  -- with more fuel than the text is long, no loop of it runs out.
  pub set_new_from_raw-Ends :
      (fuel : ℕ) (name : Option ℕ) (raw_key raw_payload : List ℕ) (l : List Bool)
      → length raw_payload < fuel
      → ((t : Token) → strtok (text "{};\n") raw_payload ≡ some t → trim t.token ≢ [])
      → Ends (set_new_from_raw parse fuel name raw_key raw_payload l)
  unfolding set_new_from_raw
  set_new_from_raw-Ends fuel name raw_key raw_payload l lt not_blank =
      Ends->>= _ (set_parse_key-Ends raw_key l) (λ key l.
        Ends->>= _ (Made-Ends (set_new-Made name key l)) (λ s l.
          Ends->>= _ (allocate-Ends l) (λ _ l. start-Ends fuel s raw_payload l lt not_blank)))
