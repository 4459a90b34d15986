-- ===== src/BfList.antt =====
-- src/libbpfilter/list.c: the doubly linked list, on a heap of nodes.
pub mod Links
pub mod Add
pub mod Walk
pub mod Delete
use bpfilter_study.Base.{
  ℕ, Bool, Option, if◌then◌else◌, none, some, ◌+◌, ◌==◌, List, false, suc, ◌∷◌, ◌-◌, ◌^◌, true,
  zero, ◌%◌,
}

-- struct bf_list_node; `datum` is the pointer to the data, `none` is NULL.
pub record Node : Type 0 where
  pub datum : ℕ
  pub prev : Option ℕ
  pub next : Option ℕ

-- The memory that the list uses: the nodes, the address of the next node, the number of blocks that
-- the allocator can still give, and the data handed to the callback that frees it, the last one
-- first.
pub record Heap : Type 0 where
  pub cell : ℕ → Option Node
  pub fresh : ℕ
  pub room : ℕ
  pub released : List ℕ

-- struct bf_list_ops, as the presence of its callbacks
pub record ListOps : Type 0 where
  pub free : Bool
  pub pack : Bool

-- struct bf_list
pub record BfList : Type 0 where
  pub len : ℕ
  pub head : Option ℕ
  pub tail : Option ℕ
  pub ops : ListOps

pub data Status : Type 0 where
  success enomem : Status

-- A run stops at a read or write of memory that is no node, and a loop at the end of its fuel.
pub data Run (A : Type 0) : Type 0 where
  ok : A → Heap → Run A
  fault endless : Run A

abbrev pub Cmd : Type 0 → Type 0
Cmd A = Heap → Run A

abbrev pub pure : {A : Type 0} → A → Cmd A
pure = ok

abbrev pub and_then : {A B : Type 0} → Run A → (A → Cmd B) → Run B
and_then (ok a h) k = k a h
and_then fault k = fault
and_then endless k = endless

infixl 5 ◌>>=◌ ◌>>◌
abbrev pub ◌>>=◌ : {A B : Type 0} → Cmd A → (A → Cmd B) → Cmd B
◌>>=◌ m k h = and_then (m h) k

abbrev pub ◌>>◌ : {B : Type 0} → Cmd (Unit {0}) → Cmd B → Cmd B
m >> k = m >>= λ _. k

abbrev pub write : (ℕ → Option Node) → ℕ → Option Node → ℕ → Option Node
write f p c q = if q == p then c else f q

abbrev pub is_ptr : Option ℕ → ℕ → Bool
is_ptr none p = false
is_ptr (some q) p = q == p

unfoldable pub load : ℕ → Cmd Node
load p h = elim (h.cell p) [ none ↦ fault | some n ↦ ok n h ]

unfoldable pub store : ℕ → Option Node → Cmd (Unit {0})
store p c h = ok tt (record h { cell = write h.cell p c })

-- `node->next = q` and `node->prev = q`
unfoldable pub set_next : ℕ → Option ℕ → Cmd (Unit {0})
set_next p q = do n ← load p; store p (some (record n { next = q }))

unfoldable pub set_prev : ℕ → Option ℕ → Cmd (Unit {0})
set_prev p q = do n ← load p; store p (some (record n { prev = q }))

-- `if (p) p->next = q` and `if (p) p->prev = q`
unfoldable pub set_next_if : Option ℕ → Option ℕ → Cmd (Unit {0})
set_next_if none q = pure tt
set_next_if (some p) q = set_next p q

unfoldable pub set_prev_if : Option ℕ → Option ℕ → Cmd (Unit {0})
set_prev_if none q = pure tt
set_prev_if (some p) q = set_prev p q

-- `none` is a failed calloc().
unfoldable pub list_node_new : ℕ → Cmd (Option ℕ)
list_node_new datum h =
    if h.room == 0
    then ok none h
    else ok (some h.fresh) (record h {
      cell = write h.cell h.fresh (some (record { datum = datum; prev = none; next = none }));
      fresh = h.fresh + 1;
      room = h.room - 1;
    })

abbrev pub release : Bool → ℕ → Cmd (Unit {0})
release true d h = ok tt (record h { released = d ∷ h.released })
release false d h = ok tt h

unfoldable pub list_node_free : Bool → ℕ → Cmd (Unit {0})
list_node_free free p = do n ← load p; release free n.datum; store p none

unfoldable pub list_init : Option ListOps → BfList
list_init ops = record {
  len = 0;
  head = none;
  tail = none;
  ops = elim ops [ some o ↦ o | none ↦ record { free = false; pack = false } ];
}

-- The list itself is a block too.
unfoldable pub list_new : Option ListOps → Cmd (Option BfList)
list_new ops h =
    if h.room == 0 then ok none h else ok (some (list_init ops)) (record h { room = h.room - 1 })

-- `if (!o) o = p`
abbrev pub or_set : Option ℕ → ℕ → Option ℕ
or_set none p = some p
or_set (some q) p = some q

unfoldable pub link_head : BfList → ℕ → Cmd (Status × BfList)
link_head l p = do
  set_next p l.head
  set_prev_if l.head (some p)
  pure (success, record l { head = some p; tail = or_set l.tail p; len = (l.len + 1) % 2 ^ 64 })

unfoldable pub list_add_head : BfList → ℕ → Cmd (Status × BfList)
list_add_head l datum = do
  node ← list_node_new datum
  elim node [ none ↦ pure (enomem, l) | some p ↦ link_head l p ]

unfoldable pub link_tail : BfList → ℕ → Cmd (Status × BfList)
link_tail l p = do
  set_prev p l.tail
  set_next_if l.tail (some p)
  pure (success, record l { tail = some p; head = or_set l.head p; len = (l.len + 1) % 2 ^ 64 })

unfoldable pub list_add_tail : BfList → ℕ → Cmd (Status × BfList)
list_add_tail l datum = do
  node ← list_node_new datum
  elim node [ none ↦ pure (enomem, l) | some p ↦ link_tail l p ]

-- The caller's pointer to the data is reset if the list has taken the data.
unfoldable pub list_push : BfList → Option ℕ → Cmd (Status × BfList × Option ℕ)
list_push l datum = do
  (r, l') ← list_add_tail l (elim datum [ none ↦ 0 | some d ↦ d ])
  pure (r, l', elim r [ success ↦ none | enomem ↦ datum ])

-- The node is read again after each write, as the source does.
unfoldable pub list_delete : BfList → ℕ → Cmd BfList
list_delete l p = do
  n ← load p
  set_next_if n.prev n.next
  n' ← load p
  set_prev_if n'.next n'.prev
  list_node_free l.ops.free p
  pure (record l {
    head = if is_ptr l.head p then n.next else l.head;
    tail = if is_ptr l.tail p then n.prev else l.tail;
    len = (l.len + 2 ^ 64 - 1) % 2 ^ 64;
  })

-- `p ? p->next : NULL`
unfoldable pub next_of : Option ℕ → Cmd (Option ℕ)
next_of none = pure none
next_of (some p) = do n ← load p; pure n.next

-- `bf_list_foreach`, which reads the node behind the next one before the body runs
unfoldable pub clean_from : ℕ → Bool → Option ℕ → Option ℕ → Cmd (Unit {0})
clean_from zero _ _ _ = λ h. endless
clean_from (suc fuel) free none next = pure tt
clean_from (suc fuel) free (some p) next = do
  list_node_free free p
  after ← next_of next
  clean_from fuel free next after

unfoldable pub list_clean : ℕ → BfList → Cmd BfList
list_clean fuel l = do
  next ← next_of l.head
  clean_from fuel l.ops.free l.head next
  pure (record l { len = 0; head = none; tail = none })

unfoldable pub get_from : ℕ → ℕ → Option ℕ → Option ℕ → Cmd (Option ℕ)
get_from zero _ _ _ = λ h. endless
get_from (suc fuel) index none next = pure none
get_from (suc fuel) zero (some p) next = do n ← load p; pure (some n.datum)
get_from (suc fuel) (suc index) (some p) next = do
  after ← next_of next
  get_from fuel index next after

unfoldable pub list_get_at : ℕ → BfList → ℕ → Cmd (Option ℕ)
list_get_at fuel l index = do next ← next_of l.head; get_from fuel index l.head next
