-- ===== src/Sets/Elements.antt =====
-- Every element of a set of src/libbpfilter/set.c has the size that its key asks for.
use bpfilter_study.Base.{
  ℕ, zero, suc, ◌≡◌, refl, Bool, Option, none, some, List, [], ◌∷◌, ◌++◌, arith, length, text,
  length-append, ◌∙◌, sym,
}
use bpfilter_study.Matcher.{MatcherType, op_in}
use bpfilter_study.Chain.{Set}
use bpfilter_study.Sets.{
  Run, ok, err, endless, M, Parser, and_then, component, elem_from, no_component_left,
  set_parse_elem, with_bytes, allocate, pure, with_ops, element, elems_from, set_new_from_raw,
  or_saved, set_parse_key, trimmed, again,
}
use bpfilter_study.Sets.Strings.{Token, strtok, trim}
use bpfilter_study.Matcher.Ops.{ref_payload_size, matcher_get_ops}
use bpfilter_study.Sets.Keyed.{
  sizes, Made, made, no_component, set_new-Made, too_many, unsupported, mixed, no_memory,
}

-- A payload has the size that the table of matchers gives for it.
abbrev pub Writes : Parser → Type 0
Writes parse =
    (t : MatcherType) (s bytes : List ℕ)
    → parse t s ≡ some bytes
    → length bytes ≡ ref_payload_size t op_in

abbrev pub AllLong : ℕ → List (List ℕ) → Type 0
AllLong n [] = Unit
AllLong n (e ∷ es) = (length e ≡ n) × AllLong n es

-- The elements' size is the key's, and every element has it.
abbrev pub IsSized : Set → Type 0
IsSized s = (s.elem_size ≡ sizes s.key) × AllLong s.elem_size s.elems

-- What a run gives, if it gives something.
pub data Gives {A : Type 0} (P : A → Type 0) : Run A → Type 0 where
  gives : {a : A} {l : List Bool} → P a → Gives P (ok a l)
  fails : {e : ℕ} → Gives P (err e)
  runs_on : Gives P endless

pub Gives->>= :
    {A B : Type 0} {P : A → Type 0} {Q : B → Type 0} {r : Run A} (k : A → M B)
    → Gives P r
    → ((a : A) (l : List Bool) → P a → Gives Q (k a l))
    → Gives Q (and_then r k)
Gives->>= k (gives {a} {l} p) h = h a l p
Gives->>= k fails h = fails
Gives->>= k runs_on h = runs_on

abbrev Anything : {A : Type 0} → A → Type 0
Anything a = Unit

any_run : {A : Type 0} (r : Run A) → Gives Anything r
any_run (ok a l) = gives tt
any_run (err e) = fails
any_run endless = runs_on

AllLong-snoc :
    (n : ℕ) (es : List (List ℕ)) (e : List ℕ)
    → length e ≡ n
    → AllLong n es
    → AllLong n (es ++ e ∷ [])
AllLong-snoc n [] e p a = (p, tt)
AllLong-snoc n (x ∷ es) e p a = (a.0, AllLong-snoc n es e p a.1)

module _ (parse : Parser) (writes : Writes parse) where
  abbrev Long : List MatcherType → List ℕ → Type 0
  Long key e = length e ≡ sizes key

  with_bytes-Gives :
      (key : List MatcherType) (type : MatcherType) (token : List ℕ) (next : M (List ℕ))
      → ((l : List Bool) → Gives (Long key) (next l))
      → (b : Option (List ℕ)) → parse type token ≡ b
      → (l : List Bool) → Gives (Long (type ∷ key)) (with_bytes parse next b l)
  with_bytes-Gives key type token next rest none e l = fails
  with_bytes-Gives key type token next rest (some bytes) e l =
      Gives->>= (λ r. pure (bytes ++ r)) (rest l)
        (λ r k p. gives (omega (arith, length-append {0} bytes r, writes type token bytes e, p)))

  component-Gives :
      (key : List MatcherType) (type : MatcherType) (next : List ℕ → M (List ℕ))
      → ((s : List ℕ) (l : List Bool) → Gives (Long key) (next s l))
      → (o : Option Token) (l : List Bool)
      → Gives (Long (type ∷ key)) (component parse next type o l)
  component-Gives key type next rest none l = fails
  component-Gives key type next rest (some t) l = by_ops (matcher_get_ops type op_in)
    where
      by_ops :
          (o : Option ℕ) → Gives (Long (type ∷ key)) (with_ops parse (next t.rest) type t.token o l)
      by_ops none = fails
      by_ops (some n) =
          with_bytes-Gives key type (trim t.token) (next t.rest) (rest t.rest)
            (parse type (trim t.token)) refl l

  no_component_left-Gives :
      (o : Option Token) (l : List Bool) → Gives (Long []) (no_component_left parse o l)
  no_component_left-Gives none l = gives refl
  no_component_left-Gives (some t) l = fails

  elem_from-Gives :
      (fuel : ℕ) (key : List MatcherType) (s : List ℕ) (l : List Bool)
      → Gives (Long key) (elem_from parse fuel key s l)
  unfolding elem_from
  elem_from-Gives zero key s l = runs_on
  elem_from-Gives (suc fuel) [] s l = no_component_left-Gives (strtok (text ",") s) l
  elem_from-Gives (suc fuel) (type ∷ key) s l =
      component-Gives key type (elem_from parse fuel key) (elem_from-Gives fuel key)
        (strtok (text ",") s) l

  pub set_parse_elem-Gives :
      (fuel : ℕ) (s : Set) (raw : List ℕ) (l : List Bool)
      → IsSized s
      → Gives IsSized (set_parse_elem parse fuel s raw l)
  unfolding set_parse_elem
  set_parse_elem-Gives fuel s raw l sized = Gives->>= _ (any_run (allocate l)) (λ _ l _.
      Gives->>= _ (any_run (allocate l)) (λ _ l _.
        Gives->>= _ (elem_from-Gives fuel s.key raw l) (λ e l p.
          Gives->>= _ (any_run (allocate l)) (λ _ l _.
            gives (sized.0, AllLong-snoc s.elem_size s.elems e (p ∙ sym sized.0) sized.1)))))

  element-Gives :
      (next : Set → Option (List ℕ) → List ℕ → M Set)
      → ((s : Set) (tmp : Option (List ℕ)) (saved : List ℕ) (l : List Bool)
          → IsSized s
          → Gives IsSized (next s tmp saved l))
      → (s : Set) (tmp : Option (List ℕ)) (o : Option Token) (l : List Bool) → IsSized s
      → Gives IsSized (element parse next s tmp o l)
  element-Gives next rest s tmp none l sized = gives sized
  element-Gives next rest s tmp (some t) l sized = by_text (trim t.token)
    where
      by_text : (e : List ℕ) → Gives IsSized (trimmed parse next s tmp t e l)
      by_text [] = rest s (again tmp t.seen) t.rest l sized
      by_text (c ∷ cs) =
          Gives->>= (λ s'. next s' none t.rest)
            (set_parse_elem-Gives (suc (length (c ∷ cs))) s (c ∷ cs) l sized)
            (λ s' k p. rest s' none t.rest k p)

  elems_from-Gives :
      (fuel : ℕ) (s : Set) (tmp : Option (List ℕ)) (saved : List ℕ) (l : List Bool)
      → IsSized s
      → Gives IsSized (elems_from parse fuel s tmp saved l)
  unfolding elems_from
  elems_from-Gives zero s tmp saved l sized = runs_on
  elems_from-Gives (suc fuel) s tmp saved l sized =
      element-Gives (elems_from parse fuel) (elems_from-Gives fuel) s tmp
        (strtok (text "{};\n") (or_saved tmp saved)) l sized

  Made-Gives :
      {name : Option ℕ} {key : List MatcherType} {l : List Bool} {r : Run Set}
      → Made name key l r
      → Gives IsSized r
  Made-Gives (made a b m c d n k e z u) = gives (rw (k, z) refl, rw e tt)
  Made-Gives (no_component e) = fails
  Made-Gives (too_many e) = fails
  Made-Gives (unsupported a b m u) = fails
  Made-Gives (mixed a b m c d) = fails
  Made-Gives (no_memory a b m) = fails

  -- Every set that bf_set_new_from_raw() gives has elements of the size that its key asks for, if
  -- the parser of each component writes the number of bytes that the table of matchers gives.
  pub set_new_from_raw-IsSized :
      (fuel : ℕ) (name : Option ℕ) (raw_key raw_payload : List ℕ) (l : List Bool)
      → Gives IsSized (set_new_from_raw parse fuel name raw_key raw_payload l)
  unfolding set_new_from_raw
  set_new_from_raw-IsSized fuel name raw_key raw_payload l =
      Gives->>= _ (any_run (set_parse_key (suc (length raw_key)) raw_key l)) (λ key l _.
        Gives->>= _ (Made-Gives (set_new-Made name key l)) (λ s l sized.
          Gives->>= _ (any_run (allocate l))
            (λ _ l _. elems_from-Gives fuel s (some raw_payload) [] l sized)))
