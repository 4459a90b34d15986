-- ===== src/BfList/Links.antt =====
-- What a heap holds for a doubly linked list: the nodes in order, linked both ways.
use bpfilter_study.Base.{
  ℕ, ◌%◌, ◌^◌, ◌<◌, ◌≡◌, ◌≢◌, refl, false, Option, none, some, List, [], ◌∷◌, ◌++◌, arith, length,
  ◌+◌, ◌∙◌, ap,
}
use bpfilter_study.BfList.{
  Node, Heap, BfList, write, is_ptr, ok, load, store, set_next, set_prev, set_next_if, set_prev_if,
  Run, and_then,
}

-- What a list stands for: the address and the datum of each node.
abbrev pub Entries : Type 0
Entries = List (ℕ × ℕ)

abbrev pub first : Entries → Option ℕ → Option ℕ
first [] after = after
first ((p, _) ∷ _) after = some p

abbrev pub last : Option ℕ → Entries → Option ℕ
last before [] = before
last before ((p, _) ∷ xs) = last (some p) xs

abbrev pub node : ℕ → Option ℕ → Option ℕ → Node
node d before after = record { datum = d; prev = before; next = after }

-- From the node behind `before` the nodes of `xs` lead to `after`, and back.
abbrev pub Linked : (ℕ → Option Node) → Option ℕ → Entries → Option ℕ → Type 0
Linked f before [] after = Unit
Linked f before ((p, d) ∷ xs) after =
    (f p ≡ some (node d before (first xs after))) × Linked f (some p) xs after

abbrev pub NotIn : ℕ → Entries → Type 0
NotIn p [] = Unit
NotIn p ((q, _) ∷ xs) = (p ≢ q) × NotIn p xs

abbrev pub Distinct : Entries → Type 0
Distinct [] = Unit
Distinct ((p, _) ∷ xs) = NotIn p xs × Distinct xs

abbrev pub Below : ℕ → Entries → Type 0
Below n [] = Unit
Below n ((p, _) ∷ xs) = (p < n) × Below n xs

-- The list `l` holds the entries `xs` in the heap.
pub record IsList (h : Heap) (l : BfList) (xs : Entries) : Type 0 where
  pub linked : Linked h.cell none xs none
  pub distinct : Distinct xs
  pub below : Below h.fresh xs
  pub head : l.head ≡ first xs none
  pub tail : l.tail ≡ last none xs
  pub len : l.len ≡ length xs % 2 ^ 64

pub NotIn_of_Below : (n : ℕ) (xs : Entries) → Below n xs → NotIn n xs
NotIn_of_Below n [] b = tt
NotIn_of_Below n (x ∷ xs) b = (λ e. omega arith, NotIn_of_Below n xs b.1)

pub Below-suc : (n : ℕ) (xs : Entries) → Below n xs → Below (n + 1) xs
Below-suc n [] b = tt
Below-suc n (x ∷ xs) b = (omega arith, Below-suc n xs b.1)

pub first-append : (xs ys : Entries) (a : Option ℕ) → first (xs ++ ys) a ≡ first xs (first ys a)
first-append [] ys a = refl
first-append (x ∷ xs) ys a = refl

pub last-append : (b : Option ℕ) (xs ys : Entries) → last b (xs ++ ys) ≡ last (last b xs) ys
last-append b [] ys = refl
last-append b ((p, _) ∷ xs) ys = last-append (some p) xs ys

-- A write elsewhere changes nothing.
pub Linked-write :
    (f : ℕ → Option Node) (p : ℕ) (c : Option Node) (before : Option ℕ) (xs : Entries)
    (after : Option ℕ)
    → NotIn p xs
    → Linked f before xs after
    → Linked (write f p c) before xs after
Linked-write f p c before [] after out l = tt
Linked-write f p c before ((q, d) ∷ xs) after out l =
    (ground arith, Linked-write f p c (some q) xs after out.1 l.1)

pub Linked-split :
    (f : ℕ → Option Node) (before : Option ℕ) (xs ys : Entries) (after : Option ℕ)
    → Linked f before (xs ++ ys) after
    → Linked f before xs (first ys after) × Linked f (last before xs) ys after
Linked-split f before [] ys after l = (tt, l)
Linked-split f before ((p, d) ∷ xs) ys after l =
    let (a, b) = Linked-split f (some p) xs ys after l.1 in
    ((rw (← first-append xs ys after) l.0, a), b)

pub Linked-append :
    (f : ℕ → Option Node) (before : Option ℕ) (xs ys : Entries) (after : Option ℕ)
    → Linked f before xs (first ys after)
    → Linked f (last before xs) ys after
    → Linked f before (xs ++ ys) after
Linked-append f before [] ys after l k = k
Linked-append f before ((p, d) ∷ xs) ys after l k =
    (rw (first-append xs ys after) l.0, Linked-append f (some p) xs ys after l.1 k)

-- The heap after `if (p) p->next = v` and `if (p) p->prev = v`.
abbrev pub next_set : (ℕ → Option Node) → Option ℕ → Option ℕ → ℕ → Option Node
next_set f none v = f
next_set f (some p) v =
    write f p (elim (f p) [ none ↦ none | some n ↦ some (record n { next = v }) ])

abbrev pub prev_set : (ℕ → Option Node) → Option ℕ → Option ℕ → ℕ → Option Node
prev_set f none v = f
prev_set f (some p) v =
    write f p (elim (f p) [ none ↦ none | some n ↦ some (record n { prev = v }) ])

abbrev pub Alive : (ℕ → Option Node) → Option ℕ → Type 0
Alive f none = Unit
Alive f (some p) = (n : Node) × (f p ≡ some n)

pub last-Alive :
    (f : ℕ → Option Node) (b : Option ℕ) (xs : Entries) (a : Option ℕ)
    → Alive f b
    → Linked f b xs a
    → Alive f (last b xs)
last-Alive f b [] a alive l = alive
last-Alive f b ((p, d) ∷ xs) a alive l = last-Alive f (some p) xs a (_, l.0) l.1

pub first-Alive :
    (f : ℕ → Option Node) (b : Option ℕ) (xs : Entries) (a : Option ℕ)
    → Alive f a
    → Linked f b xs a
    → Alive f (first xs a)
first-Alive f b [] a alive l = alive
first-Alive f b ((p, d) ∷ xs) a alive l = (_, l.0)

pub load_lem : (p : ℕ) (n : Node) (h : Heap) → h.cell p ≡ some n → load p h ≡ ok n h
unfolding load
load_lem p n h e = ground arith

-- A command that succeeds passes its result on.
pub step_ok :
    {A B : Type 0} {r : Run A} {a : A} {h : Heap} (k : A → Heap → Run B) {s : Run B}
    → r ≡ ok a h
    → k a h ≡ s
    → and_then r k ≡ s
step_ok k e f = ap (λ r. and_then r k) e ∙ f

pub set_next_if_lem :
    (o v : Option ℕ) (h : Heap)
    → Alive h.cell o
    → set_next_if o v h ≡ ok tt (record h { cell = next_set h.cell o v })
unfolding set_next_if set_next store
set_next_if_lem none v h a = refl
set_next_if_lem (some p) v h (n, e) = step_ok _ (load_lem p n h e) (rw e refl)

pub set_prev_if_lem :
    (o v : Option ℕ) (h : Heap)
    → Alive h.cell o
    → set_prev_if o v h ≡ ok tt (record h { cell = prev_set h.cell o v })
unfolding set_prev_if set_prev store
set_prev_if_lem none v h a = refl
set_prev_if_lem (some p) v h (n, e) = step_ok _ (load_lem p n h e) (rw e refl)

pub next_set-last :
    (f : ℕ → Option Node) (v b : Option ℕ) (xs : Entries) (p : ℕ)
    → is_ptr b p ≡ false
    → NotIn p xs
    → next_set f (last b xs) v p ≡ f p
next_set-last f v none [] p e out = refl
next_set-last f v (some q) [] p e out = ground arith
next_set-last f v b ((q, _) ∷ xs) p e out = next_set-last f v (some q) xs p (ground arith) out.1

-- The last node is made to lead elsewhere.
pub Linked-next_set :
    (f : ℕ → Option Node) (v b : Option ℕ) (xs : Entries) (a : Option ℕ)
    → Distinct xs
    → Linked f b xs a
    → Linked (next_set f (last none xs) v) b xs v
Linked-next_set f v b [] a d l = tt
Linked-next_set f v b ((p, e) ∷ []) a d l = (ground arith, tt)
Linked-next_set f v b ((p, e) ∷ (q, g) ∷ xs) a d l = (
  next_set-last f v none ((q, g) ∷ xs) p refl d.0 ∙ l.0,
  Linked-next_set f v (some p) ((q, g) ∷ xs) a d.1 l.1,
)

-- The first node is made to lead back elsewhere.
pub Linked-prev_set :
    (f : ℕ → Option Node) (v b : Option ℕ) (xs : Entries) (a : Option ℕ)
    → Distinct xs
    → Linked f b xs a
    → Linked (prev_set f (first xs none) v) v xs a
Linked-prev_set f v b [] a d l = tt
Linked-prev_set f v b ((p, e) ∷ xs) a d l = (ground arith, Linked-write f p _ (some p) xs a d.0 l.1)
