-- ===== src/Sets/Keyed.antt =====
-- bf_set_new() of src/libbpfilter/set.c on every branch.
use bpfilter_study.Base.{
  ℕ, ◌+◌, ◌≤◌, ◌<◌, ◌≡◌, refl, Bool, true, false, ◌&&◌, Option, none, some, List, [], ◌∷◌, arith,
  length, ◌==◌, ltb, Bool-cases, inl, inr, if◌then◌else◌, ◌⊎◌, suc, zero,
}
use bpfilter_study.Matcher.{MatcherType, op_in}
use bpfilter_study.Chain.{Set}
use bpfilter_study.Sets.{
  Run, ok, err, any_net, enotsup, key_size, and_then, einval, e2big, enomem, ◌>>=◌, allocate,
  checked, set_new, name_copy, ◌>>◌, max_comps, add_size,
}
use bpfilter_study.Matcher.Ops.{ref_payload_size, matcher_get_ops}

-- The bytes of an element of a key.
abbrev pub sizes : List MatcherType → ℕ
sizes [] = 0
sizes (t ∷ ts) = ref_payload_size t op_in + sizes ts

abbrev pub AllSupported : List MatcherType → Type 0
AllSupported [] = Unit
AllSupported (t ∷ ts) = (0 < ref_payload_size t op_in) × AllSupported ts

abbrev pub SomeUnsupported : List MatcherType → Type 0
SomeUnsupported [] = ⊥
SomeUnsupported (t ∷ ts) = (ref_payload_size t op_in ≡ 0) ⊎ SomeUnsupported ts

-- One of the next allocations fails.
abbrev pub lacks_memory : ℕ → List Bool → Bool
lacks_memory zero l = false
lacks_memory (suc n) [] = false
lacks_memory (suc n) (true ∷ l) = lacks_memory n l
lacks_memory (suc n) (false ∷ l) = true

-- The set, and the copy of a name.
abbrev pub allocations : Option ℕ → ℕ
allocations none = 1
allocations (some n) = 2

-- What bf_set_new() gives for a name and a key, with the answers of the allocator: each error comes
-- with the conditions before it, which hold.
pub data Made (name : Option ℕ) (key : List MatcherType) (answers : List Bool)
    : Run Set → Type 0 where
  made :
      {s : Set} {l : List Bool}
      → 1 ≤ length key
      → length key ≤ 8
      → lacks_memory (allocations name) answers ≡ false
      → AllSupported key
      → (ltb 1 (length key) && any_net key) ≡ false
      → s.name ≡ name
      → s.key ≡ key
      → s.elems ≡ []
      → s.elem_size ≡ sizes key
      → s.use_trie ≡ (length key == 1 && any_net key)
      → Made name key answers (ok s l)
  no_component : length key ≡ 0 → Made name key answers (err einval)
  too_many : 8 < length key → Made name key answers (err e2big)
  no_memory :
      1 ≤ length key
      → length key ≤ 8
      → lacks_memory (allocations name) answers ≡ true
      → Made name key answers (err enomem)
  unsupported :
      1 ≤ length key
      → length key ≤ 8
      → lacks_memory (allocations name) answers ≡ false
      → SomeUnsupported key
      → Made name key answers (err enotsup)
  mixed :
      1 < length key
      → length key ≤ 8
      → lacks_memory (allocations name) answers ≡ false
      → AllSupported key
      → any_net key ≡ true
      → Made name key answers (err einval)

-- A size, or the error of a component.
data Sized (key : List MatcherType) (l : List Bool) : Run ℕ → Type 0 where
  sized : AllSupported key → Sized key l (ok (sizes key) l)
  unsized : SomeUnsupported key → Sized key l (err enotsup)

key_size-Sized : (key : List MatcherType) (l : List Bool) → Sized key l (key_size key l)
unfolding key_size matcher_get_ops
key_size-Sized [] l = sized tt
key_size-Sized (t ∷ ts) l = by_size (key_size-Sized ts l) (ref_payload_size t op_in == 0) refl
  where
    added :
        {r : Run ℕ}
        → 0 < ref_payload_size t op_in
        → Sized ts l r
        → Sized (t ∷ ts) l (and_then r (λ rest. ok (ref_payload_size t op_in + rest)))
    added lt (sized a) = sized (lt, a)
    added lt (unsized u) = unsized (inr u)

    by_size :
        Sized ts l (key_size ts l)
        → (b : Bool) → (ref_payload_size t op_in == 0) ≡ b
        → Sized
            (t ∷ ts)
            l
            (add_size (if b then none else some (ref_payload_size t op_in)) (key_size ts) l)
    by_size rest true e = unsized (inl (ground arith))
    by_size rest false e = added (ground arith) rest

module _ (name : Option ℕ) (key : List MatcherType) (answers : List Bool) where
  module _ (some_key : 1 ≤ length key) (short : length key ≤ 8) where
    checked-Made :
        (l : List Bool)
        → lacks_memory (allocations name) answers ≡ false
        → AllSupported key
        → Made name key answers (checked name key (sizes key) l)
    unfolding checked
    checked-Made l m a = elim (Bool-cases (ltb 1 (length key) && any_net key)) [
      | inl e ↦ rw e (mixed (ground arith) short m a (ground arith))
      | inr e ↦ rw e (made some_key short m a e refl refl refl refl refl)
    ]

    finish-Made :
        {l : List Bool} {r : Run ℕ}
        → lacks_memory (allocations name) answers ≡ false
        → Sized key l r
        → Made name key answers (and_then r (λ size. checked name key size))
    finish-Made {l} m (sized a) = checked-Made l m a
    finish-Made m (unsized u) = unsupported some_key short m u

-- The part of bf_set_new() behind the tests of the key's length.
allocated-Made :
    (name : Option ℕ) (key : List MatcherType) (l : List Bool)
    → 1 ≤ length key
    → length key ≤ 8
    → Made name key l ((do allocate; name_copy name; size ← key_size key; checked name key size) l)
unfolding allocate
allocated-Made none key [] h k = finish-Made none key [] h k refl (key_size-Sized key [])
allocated-Made none key (true ∷ l) h k =
    finish-Made none key (true ∷ l) h k refl (key_size-Sized key l)
allocated-Made none key (false ∷ l) h k = no_memory h k refl
allocated-Made (some n) key [] h k = finish-Made (some n) key [] h k refl (key_size-Sized key [])
allocated-Made (some n) key (true ∷ []) h k =
    finish-Made (some n) key (true ∷ []) h k refl (key_size-Sized key [])
allocated-Made (some n) key (true ∷ true ∷ l) h k =
    finish-Made (some n) key (true ∷ true ∷ l) h k refl (key_size-Sized key l)
allocated-Made (some n) key (true ∷ false ∷ l) h k = no_memory h k refl
allocated-Made (some n) key (false ∷ l) h k = no_memory h k refl

pub set_new-Made :
    (name : Option ℕ) (key : List MatcherType) (l : List Bool)
    → Made name key l (set_new name key l)
unfolding set_new
set_new-Made name key l = elim (Bool-cases (length key == 0)) [
  | inl e ↦ rw e (no_component (ground arith))
  | inr e ↦ rw e (elim (Bool-cases (ltb max_comps (length key))) [
    | inl f ↦ rw f (too_many (ground arith))
    | inr f ↦ rw f (allocated-Made name key l (ground arith) (ground arith))
  ])
]
