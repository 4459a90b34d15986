-- ===== src/BfList/Walk.antt =====
-- bf_list_get_at() and bf_list_clean(): the walks over a list, which read the node behind the next
-- one before the current one is used.
use bpfilter_study.Base.{
  ℕ, zero, suc, ◌<◌, ◌≡◌, refl, sym, Option, none, some, [], ◌∷◌, ◌++◌, arith, length, Bool, true,
  false, if◌then◌else◌, map, ◌∙◌,
}
use bpfilter_study.BfList.{
  Node, Heap, BfList, write, Run, ok, get_from, list_get_at, next_of, clean_from, list_clean,
  list_node_free, store,
}
use bpfilter_study.BfList.Links.{
  IsList, Entries, step_ok, Distinct, Linked, load_lem, first, Linked-write,
}
use mathlib.Core.Path.{subst}
use mathlib.Core.List.{reverse, reverse-append, append_assoc}

-- The datum of the entry at a position.
abbrev pub datum_at : Entries → ℕ → Option ℕ
datum_at [] i = none
datum_at ((_, d) ∷ xs) zero = some d
datum_at (x ∷ xs) (suc i) = datum_at xs i

abbrev pub tail_of : Entries → Entries
tail_of [] = []
tail_of (x ∷ xs) = xs

next_of_lem :
    (h : Heap) (b : Option ℕ) (xs : Entries)
    → Linked h.cell b xs none
    → next_of (first xs none) h ≡ ok (first (tail_of xs) none) h
unfolding next_of
next_of_lem h b [] l = refl
next_of_lem h b ((p, d) ∷ xs) l = step_ok _ (load_lem p _ h l.0) refl

get_from_lem :
    (fuel index : ℕ) (h : Heap) (b : Option ℕ) (xs : Entries)
    → length xs < fuel
    → Linked h.cell b xs none
    → get_from fuel index (first xs none) (first (tail_of xs) none) h ≡ ok (datum_at xs index) h
unfolding get_from
get_from_lem zero index h b xs lt l = absurd (omega arith)
get_from_lem (suc fuel) index h b [] lt l = refl
get_from_lem (suc fuel) zero h b ((p, d) ∷ xs) lt l = step_ok _ (load_lem p _ h l.0) refl
get_from_lem (suc fuel) (suc index) h b ((p, d) ∷ xs) lt l =
    step_ok _ (next_of_lem h (some p) xs l.1)
      (get_from_lem fuel index h (some p) xs (omega arith) l.1)

-- In a heap that holds a list, bf_list_get_at() ends, touches nothing, and gives the datum of the
-- entry at the index, or NULL behind the last one.
pub list_get_at-eq :
    {h : Heap} {l : BfList} {xs : Entries} (fuel index : ℕ)
    → IsList h l xs
    → length xs < fuel
    → list_get_at fuel l index h ≡ ok (datum_at xs index) h
unfolding list_get_at
list_get_at-eq {h} {l} {xs} fuel index is lt =
    step_ok _
      (subst (λ o. next_of o h ≡ ok (first (tail_of xs) none) h) (sym is.head)
        (next_of_lem h none xs is.linked))
      (subst (λ o. get_from fuel index o (first (tail_of xs) none) h ≡ ok (datum_at xs index) h)
        (sym is.head) (get_from_lem fuel index h none xs lt is.linked))

-- The heap after the nodes of the entries have been freed, the first one first.
abbrev pub freed : Bool → Entries → Heap → Heap
freed free [] h = h
freed free ((p, d) ∷ xs) h = freed free xs (record h {
  cell = write h.cell p none;
  released = elim free [ true ↦ d ∷ h.released | false ↦ h.released ];
})

pub list_node_free_lem :
    (free : Bool) (p : ℕ) (n : Node) (h : Heap)
    → h.cell p ≡ some n
    → list_node_free free p h
      ≡ ok tt (record h {
        cell = write h.cell p none;
        released = elim free [ true ↦ n.datum ∷ h.released | false ↦ h.released ];
      })
unfolding list_node_free store
list_node_free_lem true p n h e = step_ok _ (load_lem p n h e) refl
list_node_free_lem false p n h e = step_ok _ (load_lem p n h e) refl

clean_from_lem :
    (fuel : ℕ) (free : Bool) (h : Heap) (b : Option ℕ) (xs : Entries)
    → length xs < fuel
    → Distinct xs
    → Linked h.cell b xs none
    → clean_from fuel free (first xs none) (first (tail_of xs) none) h ≡ ok tt (freed free xs h)
unfolding clean_from
clean_from_lem zero free h b xs lt dis l = absurd (omega arith)
clean_from_lem (suc fuel) free h b [] lt dis l = refl
clean_from_lem (suc fuel) free h b ((p, d) ∷ xs) lt dis l =
    let left = Linked-write h.cell p none (some p) xs none dis.0 l.1 in
    step_ok _ (list_node_free_lem free p _ h l.0) (
      step_ok _ (next_of_lem _ (some p) xs left)
        (clean_from_lem fuel free _ (some p) xs (omega arith) dis.1 left))

freed-none :
    (free : Bool) (xs : Entries) (h : Heap) (p : ℕ)
    → h.cell p ≡ none
    → (freed free xs h).cell p ≡ none
freed-none free [] h p e = e
freed-none free ((q, d) ∷ xs) h p e = freed-none free xs _ p (ground arith)

abbrev pub AllFreed : (ℕ → Option Node) → Entries → Type 0
AllFreed f [] = Unit
AllFreed f ((p, _) ∷ xs) = (f p ≡ none) × AllFreed f xs

freed-AllFreed : (free : Bool) (xs : Entries) (h : Heap) → AllFreed (freed free xs h).cell xs
freed-AllFreed free [] h = tt
freed-AllFreed free ((p, d) ∷ xs) h =
    (freed-none free xs _ p (ground arith), freed-AllFreed free xs _)

freed-released :
    (free : Bool) (xs : Entries) (h : Heap)
    → (freed free xs h).released
      ≡ (if free then reverse (map (λ (x : ℕ × ℕ). x.1) xs) ++ h.released else h.released)
freed-released true [] h = refl
freed-released false [] h = refl
freed-released true ((p, d) ∷ xs) h =
    freed-released true xs _
    ∙ rw (reverse-append (d ∷ []) (map (λ (x : ℕ × ℕ). x.1) xs), append_assoc) refl
freed-released false ((p, d) ∷ xs) h = freed-released false xs _

-- What is left of a list that held the entries `xs`.
pub record Cleaned (h h' : Heap) (l l' : BfList) (xs : Entries) : Type 0 where
  pub empty : IsList h' l' []
  pub gone : AllFreed h'.cell xs
  pub released :
      h'.released
      ≡ (if l.ops.free then reverse (map (λ (x : ℕ × ℕ). x.1) xs) ++ h.released else h.released)

pub data Cleans (h : Heap) (l : BfList) (xs : Entries) : Run BfList → Type 0 where
  cleans : {h' : Heap} {l' : BfList} → Cleaned h h' l l' xs → Cleans h l xs (ok l' h')

list_clean-ok :
    {h : Heap} {l : BfList} {xs : Entries} (fuel : ℕ)
    → IsList h l xs
    → length xs < fuel
    → list_clean fuel l h
      ≡ ok (record l { len = 0; head = none; tail = none }) (freed l.ops.free xs h)
unfolding list_clean
list_clean-ok {h} {l} {xs} fuel is lt =
    step_ok _
      (subst (λ o. next_of o h ≡ ok (first (tail_of xs) none) h) (sym is.head)
        (next_of_lem h none xs is.linked))
      (step_ok _
        (subst
          (λ o.
            clean_from fuel l.ops.free o (first (tail_of xs) none) h
            ≡ ok tt (freed l.ops.free xs h))
          (sym is.head) (clean_from_lem fuel l.ops.free h none xs lt is.distinct is.linked))
        refl)

-- In a heap that holds a list, bf_list_clean() ends and reads no node that it has freed: every
-- node of the list is freed, its datum is handed to the callback, if there is one, in the list's
-- order, and the list is empty.
pub list_clean-Cleans :
    {h : Heap} {l : BfList} {xs : Entries} (fuel : ℕ)
    → IsList h l xs
    → length xs < fuel
    → Cleans h l xs (list_clean fuel l h)
list_clean-Cleans {h} {l} {xs} fuel is lt = rw (list_clean-ok fuel is lt) (
    cleans (record {
      empty = record {
        linked = tt;
        distinct = tt;
        below = tt;
        head = refl;
        tail = refl;
        len = refl;
      };
      gone = freed-AllFreed l.ops.free xs h;
      released = freed-released l.ops.free xs h;
    }))
