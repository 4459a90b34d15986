-- ===== src/BfList/Add.antt =====
-- bf_list_add_head() and bf_list_add_tail() on the sequence that a list stands for.
use bpfilter_study.Base.{
  ℕ, ◌<◌, ◌-◌, ◌+◌, ◌≡◌, refl, sym, Option, none, some, [], ◌∷◌, ◌++◌, arith, length-append, ◌==◌,
  Bool-cases, inl, inr, ap, ◌∙◌, ◌%◌, ◌^◌,
}
use bpfilter_study.BfList.{
  Node, Heap, BfList, write, Status, success, enomem, Run, ok, or_set, list_node_new, list_add_head,
  list_add_tail, link_head, link_tail, set_next_if, set_prev_if,
}
use bpfilter_study.BfList.Links.{
  IsList, Entries, next_set, node, prev_set, Below, Linked, NotIn, first, last, step_ok, Alive,
  Below-suc, Distinct, Linked-write, NotIn_of_Below, set_next_if_lem, set_prev_if_lem,
  Linked-append, first-Alive, last-Alive, Linked-next_set, Linked-prev_set, last-append,
  next_set-last,
}
use mathlib.Core.Path.{subst}

-- What an insertion that turns the list into `ys` gives: the new list, or ENOMEM and nothing
-- changed.
pub data Added (h : Heap) (l : BfList) (ys : Entries) : Run (Status × BfList) → Type 0 where
  added :
      {h' : Heap} {l' : BfList}
      → 0 < h.room
      → IsList h' l' ys
      → l'.ops ≡ l.ops
      → h'.room ≡ h.room - 1
      → h'.released ≡ h.released
      → Added h l ys (ok (success, l') h')
  no_memory : h.room ≡ 0 → Added h l ys (ok (enomem, l) h)

or_set-last : (p q : ℕ) (xs : Entries) → or_set (last (some p) xs) q ≡ last (some p) xs
or_set-last p q [] = refl
or_set-last p q ((r, _) ∷ xs) = or_set-last r q xs

or_set-last_from_none : (q : ℕ) (xs : Entries) → or_set (last none xs) q ≡ last (some q) xs
or_set-last_from_none q [] = refl
or_set-last_from_none q ((r, _) ∷ xs) = or_set-last r q xs

or_set-first : (q d : ℕ) (xs : Entries) → or_set (first xs none) q ≡ first (xs ++ (q, d) ∷ []) none
or_set-first q d [] = refl
or_set-first q d (x ∷ xs) = refl

pub prev_set-first :
    (f : ℕ → Option Node) (v : Option ℕ) (xs : Entries) (p : ℕ)
    → NotIn p xs
    → prev_set f (first xs none) v p ≡ f p
prev_set-first f v [] p out = refl
prev_set-first f v ((q, _) ∷ xs) p out = ground arith

-- The node that calloc() gives, with its datum.
abbrev with_node : Heap → ℕ → Heap
with_node h d = record h {
  cell = write h.cell h.fresh (some (node d none none));
  fresh = h.fresh + 1;
  room = h.room - 1;
}

abbrev head_cells : (ℕ → Option Node) → ℕ → ℕ → Option ℕ → ℕ → Option Node
head_cells f q d head =
    prev_set (next_set (write f q (some (node d none none))) (some q) head) head (some q)

abbrev tail_cells : (ℕ → Option Node) → ℕ → ℕ → Option ℕ → ℕ → Option Node
tail_cells f q d tail =
    next_set (prev_set (write f q (some (node d none none))) (some q) tail) tail (some q)

module _ (f : ℕ → Option Node) (q d : ℕ) (xs : Entries) (out : NotIn q xs) (distinct : Distinct xs)
    (l : Linked f none xs none) where
  head-Linked : Linked (head_cells f q d (first xs none)) none ((q, d) ∷ xs) none
  head-Linked = (
    prev_set-first _ (some q) xs q out ∙ ground arith,
    Linked-prev_set _ (some q) none xs none distinct
        (Linked-write _ q _ none xs none out (Linked-write f q _ none xs none out l)),
  )

  tail-Linked : Linked (tail_cells f q d (last none xs)) none (xs ++ (q, d) ∷ []) none
  tail-Linked =
      Linked-append _ none xs ((q, d) ∷ []) none
        (Linked-next_set _ (some q) none xs none distinct
          (Linked-write _ q _ none xs none out (Linked-write f q _ none xs none out l)))
        (next_set-last _ (some q) none xs q refl out ∙ ground arith, tt)

Distinct-snoc : (q d : ℕ) (xs : Entries) → NotIn q xs → Distinct xs → Distinct (xs ++ (q, d) ∷ [])
Distinct-snoc q d [] out e = (tt, tt)
Distinct-snoc q d ((p, e) ∷ xs) out dis = (NotIn-snoc xs dis.0, Distinct-snoc q d xs out.1 dis.1)
  where
    NotIn-snoc : (ys : Entries) → NotIn p ys → NotIn p (ys ++ (q, d) ∷ [])
    NotIn-snoc [] o = (λ e. out.0 (sym e), tt)
    NotIn-snoc (y ∷ ys) o = (o.0, NotIn-snoc ys o.1)

Below-snoc : (n q d : ℕ) (xs : Entries) → q < n → Below n xs → Below n (xs ++ (q, d) ∷ [])
Below-snoc n q d [] lt b = (lt, tt)
Below-snoc n q d (x ∷ xs) lt b = (b.0, Below-snoc n q d xs lt b.1)

module _ {h : Heap} {l : BfList} {xs : Entries} (is_list : IsList h l xs) (d : ℕ) where
  abbrev out : NotIn h.fresh xs
  out = NotIn_of_Below h.fresh xs is_list.below

  head-Alive : (f : ℕ → Option Node) → Linked f none xs none → Alive f l.head
  head-Alive f k = subst (Alive f) (sym is_list.head) (first-Alive f none xs none tt k)

  tail-Alive : (f : ℕ → Option Node) → Linked f none xs none → Alive f l.tail
  tail-Alive f k = subst (Alive f) (sym is_list.tail) (last-Alive f none xs none tt k)

  written : (c e : Option Node) → Linked (write (write h.cell h.fresh c) h.fresh e) none xs none
  written c e =
      Linked-write _ h.fresh e none xs none out
        (Linked-write h.cell h.fresh c none xs none out is_list.linked)

  abbrev with_head : BfList
  with_head = record l {
    head = some h.fresh;
    tail = or_set l.tail h.fresh;
    len = (l.len + 1) % 2 ^ 64;
  }

  abbrev with_tail : BfList
  with_tail = record l {
    tail = some h.fresh;
    head = or_set l.head h.fresh;
    len = (l.len + 1) % 2 ^ 64;
  }

  link_head-ok :
      link_head l h.fresh (with_node h d)
      ≡ ok
          (success, with_head)
          (record (with_node h d) { cell = head_cells h.cell h.fresh d l.head })
  unfolding link_head set_next_if
  link_head-ok =
      step_ok _
        (set_next_if_lem (some h.fresh) l.head (with_node h d) (node d none none, ground arith))
        (step_ok _ (set_prev_if_lem l.head (some h.fresh) _ (head-Alive _ (written _ _))) refl)

  link_tail-ok :
      link_tail l h.fresh (with_node h d)
      ≡ ok
          (success, with_tail)
          (record (with_node h d) { cell = tail_cells h.cell h.fresh d l.tail })
  unfolding link_tail set_prev_if
  link_tail-ok =
      step_ok _
        (set_prev_if_lem (some h.fresh) l.tail (with_node h d) (node d none none, ground arith))
        (step_ok _ (set_next_if_lem l.tail (some h.fresh) _ (tail-Alive _ (written _ _))) refl)

  head-IsList :
      IsList
        (record (with_node h d) { cell = head_cells h.cell h.fresh d l.head })
        with_head
        ((h.fresh, d) ∷ xs)
  head-IsList = record {
    linked =
        subst (λ o. Linked (head_cells h.cell h.fresh d o) none ((h.fresh, d) ∷ xs) none)
          (sym is_list.head) (head-Linked h.cell h.fresh d xs out is_list.distinct is_list.linked);
    distinct = (out, is_list.distinct);
    below = (omega arith, Below-suc h.fresh xs is_list.below);
    head = refl;
    tail = ap (λ o. or_set o h.fresh) is_list.tail ∙ or_set-last_from_none h.fresh xs;
    len = omega (arith, is_list.len);
  }

  tail-IsList :
      IsList
        (record (with_node h d) { cell = tail_cells h.cell h.fresh d l.tail })
        with_tail
        (xs ++ (h.fresh, d) ∷ [])
  tail-IsList = record {
    linked =
        subst (λ o. Linked (tail_cells h.cell h.fresh d o) none (xs ++ (h.fresh, d) ∷ []) none)
          (sym is_list.tail) (tail-Linked h.cell h.fresh d xs out is_list.distinct is_list.linked);
    distinct = Distinct-snoc h.fresh d xs out is_list.distinct;
    below = Below-snoc _ h.fresh d xs (omega arith) (Below-suc h.fresh xs is_list.below);
    head = ap (λ o. or_set o h.fresh) is_list.head ∙ or_set-first h.fresh d xs;
    tail = sym (last-append none xs ((h.fresh, d) ∷ []));
    len = omega (arith, is_list.len, length-append {0} xs ((h.fresh, d) ∷ []));
  }

  -- A list that stands for a sequence stands, after bf_list_add_head(), for the sequence with the
  -- new datum in front; where the allocator has no memory the function gives ENOMEM and changes
  -- nothing.
  pub list_add_head-Added : Added h l ((h.fresh, d) ∷ xs) (list_add_head l d h)
  unfolding list_add_head list_node_new
  list_add_head-Added = elim (Bool-cases (h.room == 0)) [
    | inl e ↦ rw e (no_memory (ground arith))
    | inr e ↦ rw (e, link_head-ok) (added (ground arith) head-IsList refl refl refl)
  ]

  -- A list that stands for a sequence stands, after bf_list_add_tail(), for the sequence with the
  -- new datum behind it; where the allocator has no memory the function gives ENOMEM and changes
  -- nothing.
  pub list_add_tail-Added : Added h l (xs ++ (h.fresh, d) ∷ []) (list_add_tail l d h)
  unfolding list_add_tail list_node_new
  list_add_tail-Added = elim (Bool-cases (h.room == 0)) [
    | inl e ↦ rw e (no_memory (ground arith))
    | inr e ↦ rw (e, link_tail-ok) (added (ground arith) tail-IsList refl refl refl)
  ]
