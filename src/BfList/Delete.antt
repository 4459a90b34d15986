-- ===== src/BfList/Delete.antt =====
-- bf_list_delete() on the sequence that a list stands for.
use bpfilter_study.Base.{
  ℕ, ◌≡◌, refl, sym, Option, none, some, [], ◌∷◌, ◌++◌, arith, false, if◌then◌else◌, ==_refl, ◌+◌,
  ◌^◌, ap, true, ◌-◌, ◌∙◌, ◌%◌, length-append,
}
use bpfilter_study.BfList.{Node, is_ptr, Heap, BfList, Run, list_delete, write, ok}
use bpfilter_study.BfList.Links.{
  IsList, Entries, Below, Distinct, Linked, NotIn, first, last, next_set, prev_set, Linked-write,
  last-append, Linked-append, Linked-next_set, Linked-prev_set, Linked-split, node, next_set-last,
  step_ok, load_lem, set_next_if_lem, last-Alive, set_prev_if_lem, first-Alive,
}
use mathlib.Core.List.{append-nil}
use bpfilter_study.BfList.Add.{prev_set-first}
use bpfilter_study.BfList.Walk.{list_node_free_lem}

NotIn-append : (p : ℕ) (xs ys : Entries) → NotIn p (xs ++ ys) → NotIn p xs × NotIn p ys
NotIn-append p [] ys o = (tt, o)
NotIn-append p (x ∷ xs) ys o = let (a, b) = NotIn-append p xs ys o.1 in ((o.0, a), b)

append-NotIn : (p : ℕ) (xs ys : Entries) → NotIn p xs → NotIn p ys → NotIn p (xs ++ ys)
append-NotIn p [] ys a b = b
append-NotIn p (x ∷ xs) ys a b = (a.0, append-NotIn p xs ys a.1 b)

-- The entries around one that is removed.
record Around (p : ℕ) (xs ys : Entries) : Type 0 where
  before : NotIn p xs
  after : NotIn p ys
  rest : Distinct (xs ++ ys)

Distinct-Around : (p d : ℕ) (xs ys : Entries) → Distinct (xs ++ (p, d) ∷ ys) → Around p xs ys
Distinct-Around p d [] ys dis = record { before = tt; after = dis.0; rest = dis.1 }
Distinct-Around p d ((q, e) ∷ xs) ys dis =
    let (a, b) = NotIn-append q xs ((p, d) ∷ ys) dis.0 in
    let r = Distinct-Around p d xs ys dis.1 in
    record {
      before = (λ e. b.0 (sym e), r.before);
      after = r.after;
      rest = (append-NotIn q xs ys a b.1, r.rest);
    }

Distinct-append : (xs ys : Entries) → Distinct (xs ++ ys) → Distinct xs × Distinct ys
Distinct-append [] ys dis = (tt, dis)
Distinct-append ((p, d) ∷ xs) ys dis =
    let (a, b) = Distinct-append xs ys dis.1 in (((NotIn-append p xs ys dis.0).0, a), b)

Below-remove : (n p d : ℕ) (xs ys : Entries) → Below n (xs ++ (p, d) ∷ ys) → Below n (xs ++ ys)
Below-remove n p d [] ys b = b.1
Below-remove n p d (x ∷ xs) ys b = (b.0, Below-remove n p d xs ys b.1)

abbrev PtrNotIn : Option ℕ → Entries → Type 0
PtrNotIn none xs = Unit
PtrNotIn (some p) xs = NotIn p xs

last-PtrNotIn :
    (b : Option ℕ) (xs ys : Entries) → PtrNotIn b ys → Distinct (xs ++ ys) → PtrNotIn (last b xs) ys
last-PtrNotIn b [] ys o dis = o
last-PtrNotIn b ((p, _) ∷ xs) ys o dis =
    last-PtrNotIn (some p) xs ys (NotIn-append p xs ys dis.0).1 dis.1

first-NotIn : (p d : ℕ) (xs ys : Entries) → Distinct (xs ++ (p, d) ∷ ys) → NotIn p xs
first-NotIn p d xs ys dis = (Distinct-Around p d xs ys dis).before

first-PtrNotIn : (xs ys : Entries) → Distinct (xs ++ ys) → PtrNotIn (first ys none) xs
first-PtrNotIn xs [] dis = tt
first-PtrNotIn xs ((p, d) ∷ ys) dis = first-NotIn p d xs ys dis

next_set-Linked :
    (f : ℕ → Option Node) (o v b : Option ℕ) (xs : Entries) (a : Option ℕ)
    → PtrNotIn o xs
    → Linked f b xs a
    → Linked (next_set f o v) b xs a
next_set-Linked f none v b xs a out l = l
next_set-Linked f (some p) v b xs a out l = Linked-write f p _ b xs a out l

prev_set-Linked :
    (f : ℕ → Option Node) (o v b : Option ℕ) (xs : Entries) (a : Option ℕ)
    → PtrNotIn o xs
    → Linked f b xs a
    → Linked (prev_set f o v) b xs a
prev_set-Linked f none v b xs a out l = l
prev_set-Linked f (some p) v b xs a out l = Linked-write f p _ b xs a out l

is_ptr-last :
    (p : ℕ) (b : Option ℕ) (xs : Entries)
    → is_ptr b p ≡ false
    → NotIn p xs
    → is_ptr (last b xs) p ≡ false
is_ptr-last p b [] e out = e
is_ptr-last p b ((q, _) ∷ xs) e out = is_ptr-last p (some q) xs (ground arith) out.1

head-delete :
    (p d : ℕ) (xs ys : Entries)
    → NotIn p xs
    → (if is_ptr (first (xs ++ (p, d) ∷ ys) none) p
        then first ys none
        else first (xs ++ (p, d) ∷ ys) none)
      ≡ first (xs ++ ys) none
head-delete p d [] ys out = ground arith
head-delete p d ((q, _) ∷ xs) ys out = ground arith

tail-delete :
    (p d : ℕ) (xs ys : Entries)
    → NotIn p ys
    → (if is_ptr (last none (xs ++ (p, d) ∷ ys)) p
        then last none xs
        else last none (xs ++ (p, d) ∷ ys))
      ≡ last none (xs ++ ys)
tail-delete p d xs [] out = rw (last-append, ==_refl, append-nil) refl
tail-delete p d xs ((q, e) ∷ ys) out =
    rw (last-append, last-append, is_ptr-last p (some q) ys (ground arith) out.1) refl

-- What bf_list_delete() leaves of a list without the entry `(p, d)`.
pub record Deleted (h h' : Heap) (l l' : BfList) (p d : ℕ) (rest : Entries) : Type 0 where
  pub is_list : IsList h' l' rest
  pub gone : h'.cell p ≡ none
  pub released : h'.released ≡ (if l.ops.free then d ∷ h.released else h.released)

pub data Deletes (h : Heap) (l : BfList) (p d : ℕ) (rest : Entries) : Run BfList → Type 0 where
  deletes : {h' : Heap} {l' : BfList} → Deleted h h' l l' p d rest → Deletes h l p d rest (ok l' h')

module _ {h : Heap} {l : BfList} (p d : ℕ) (xs ys : Entries)
    (is : IsList h l (xs ++ (p, d) ∷ ys)) where
  abbrev before : Option ℕ
  before = last none xs

  abbrev after : Option ℕ
  after = first ys none

  abbrev unlinked : Heap
  unlinked = record h { cell = next_set h.cell before after }

  abbrev relinked : Heap
  relinked = record h { cell = prev_set unlinked.cell after before }

  abbrev deleted : Heap
  deleted = record h {
    cell = write relinked.cell p none;
    released = elim l.ops.free [ true ↦ d ∷ h.released | false ↦ h.released ];
  }

  around : Around p xs ys
  around = Distinct-Around p d xs ys is.distinct

  parts : Linked h.cell none xs (some p) × Linked h.cell before ((p, d) ∷ ys) none
  parts = Linked-split h.cell none xs ((p, d) ∷ ys) none is.linked

  xs-unlinked : Linked unlinked.cell none xs after
  xs-unlinked =
      Linked-next_set h.cell after none xs (some p) (Distinct-append xs ys around.rest).0 parts.0

  p-unlinked : unlinked.cell p ≡ some (node d before after)
  p-unlinked = next_set-last h.cell after none xs p refl around.before ∙ parts.1.0

  ys-unlinked : Linked unlinked.cell (some p) ys none
  ys-unlinked =
      next_set-Linked h.cell before after (some p) ys none (last-PtrNotIn none xs ys tt around.rest)
        parts.1.1

  xs-relinked : Linked relinked.cell none xs after
  xs-relinked =
      prev_set-Linked unlinked.cell after before none xs after (first-PtrNotIn xs ys around.rest)
        xs-unlinked

  p-relinked : relinked.cell p ≡ some (node d before after)
  p-relinked = prev_set-first unlinked.cell before ys p around.after ∙ p-unlinked

  ys-relinked : Linked relinked.cell before ys none
  ys-relinked =
      Linked-prev_set unlinked.cell before (some p) ys none (Distinct-append xs ys around.rest).1
        ys-unlinked

  rest-Linked : Linked deleted.cell none (xs ++ ys) none
  rest-Linked =
      Linked-append deleted.cell none xs ys none
        (Linked-write relinked.cell p none none xs after around.before xs-relinked)
        (Linked-write relinked.cell p none before ys none around.after ys-relinked)

  abbrev without : BfList
  without = record l {
    head = if is_ptr l.head p then after else l.head;
    tail = if is_ptr l.tail p then before else l.tail;
    len = (l.len + 2 ^ 64 - 1) % 2 ^ 64;
  }

  list_delete-ok : list_delete l p h ≡ ok without deleted
  unfolding list_delete
  list_delete-ok = step_ok _ (load_lem p (node d before after) h parts.1.0) (
      step_ok _ (set_next_if_lem before after h (last-Alive h.cell none xs (some p) tt parts.0)) (
        step_ok _ (load_lem p (node d before after) unlinked p-unlinked) (
          step_ok _
            (set_prev_if_lem after before unlinked
              (first-Alive unlinked.cell (some p) ys none tt ys-unlinked))
            (step_ok _ (list_node_free_lem l.ops.free p (node d before after) relinked p-relinked)
              refl))))

  -- A list that holds an entry stands, after bf_list_delete() of its node, for the sequence without
  -- this entry; the node is freed, and its datum is handed to the callback, if there is one.
  pub list_delete-Deletes : Deletes h l p d (xs ++ ys) (list_delete l p h)
  list_delete-Deletes = rw list_delete-ok (
      deletes (record {
        is_list = record {
          linked = rest-Linked;
          distinct = around.rest;
          below = Below-remove h.fresh p d xs ys is.below;
          head =
              ap (λ o. if is_ptr o p then after else o) is.head
              ∙ head-delete p d xs ys around.before;
          tail =
              ap (λ o. if is_ptr o p then before else o) is.tail
              ∙ tail-delete p d xs ys around.after;
          len = omega (arith, is.len, length-append {0} xs ((p, d) ∷ ys), length-append {0} xs ys);
        };
        gone = ground arith;
        released = ground arith;
      }))
