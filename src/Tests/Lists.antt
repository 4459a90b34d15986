-- ===== src/Tests/Lists.antt =====
-- Runs of the theorems about the doubly linked list.
use bpfilter_study.Base.{◌≡◌, refl, none, some, [], ◌∷◌, true, false, arith}
use bpfilter_study.BfList.{
  Heap, BfList, ok, list_add_head, list_add_tail, list_delete, list_get_at, list_clean, write,
}
use bpfilter_study.BfList.Links.{IsList, node}
use bpfilter_study.BfList.Add.{Added, list_add_head-Added, list_add_tail-Added}
use bpfilter_study.BfList.Walk.{Cleans, list_get_at-eq, list_clean-Cleans}
use bpfilter_study.BfList.Delete.{Deletes, list_delete-Deletes}

-- Two nodes, and room for one more.
abbrev two_heap : Heap
two_heap = record {
  cell =
      write (write (λ _. none) 1 (some (node 10 none (some 2)))) 2 (some (node 20 (some 1) none));
  fresh = 3;
  room = 1;
  released = [];
}

abbrev two_list : BfList
two_list = record {
  len = 2;
  head = some 1;
  tail = some 2;
  ops = record { free = true; pack = false };
}

two_list-IsList : IsList two_heap two_list ((1, 10) ∷ (2, 20) ∷ [])
two_list-IsList = record {
  linked = (refl, (refl, tt));
  distinct = ((λ e. omega arith, tt), (tt, tt));
  below = (omega arith, (omega arith, tt));
  head = refl;
  tail = refl;
  len = refl;
}

list_add_head-Added_example :
    Added two_heap two_list ((3, 30) ∷ (1, 10) ∷ (2, 20) ∷ []) (list_add_head two_list 30 two_heap)
list_add_head-Added_example = list_add_head-Added two_list-IsList 30

list_add_tail-Added_example :
    Added two_heap two_list ((1, 10) ∷ (2, 20) ∷ (3, 30) ∷ []) (list_add_tail two_list 30 two_heap)
list_add_tail-Added_example = list_add_tail-Added two_list-IsList 30

list_delete-Deletes_example :
    Deletes two_heap two_list 2 20 ((1, 10) ∷ []) (list_delete two_list 2 two_heap)
list_delete-Deletes_example = list_delete-Deletes 2 20 ((1, 10) ∷ []) [] two_list-IsList

list_get_at-eq_example : list_get_at 3 two_list 1 two_heap ≡ ok (some 20) two_heap
list_get_at-eq_example = list_get_at-eq 3 1 two_list-IsList (omega arith)

list_clean-Cleans_example :
    Cleans two_heap two_list ((1, 10) ∷ (2, 20) ∷ []) (list_clean 3 two_list two_heap)
list_clean-Cleans_example = list_clean-Cleans 3 two_list-IsList (omega arith)
