-- ===== src/LinkedList/Tests.antt =====
-- The list with head 1 and the nodes 2 and 3, and the theorems at it.
use aco_os.Base.{◌≡◌, refl, false, [], ◌∷◌, ◌==◌, Disjoint, if◌then◌else◌, arith}
use aco_os.Base.Run.{ok}
use aco_os.LinkedList.Cut.{list_cut_position-IsRing}
use aco_os.LinkedList.{list_cut_position}
use aco_os.LinkedList.{
  Heap, list_add, list_add_tail, node_add_aft, node_add_bef, list_del, list_del_init, list_move,
  list_move_tail, list_splice, list_splice_tail, list_splice_init, list_splice_tail_init,
  list_empty, list_is_singular, list_for_each,
}
use aco_os.LinkedList.Chain.{IsRing}
use aco_os.LinkedList.Insert.{
  list_add-IsRing, list_add_tail-IsRing, node_add_aft-IsRing, node_add_bef-IsRing,
}
use aco_os.LinkedList.Remove.{
  list_del-IsRing, list_del_init-IsRing, list_move-IsRing, list_move_tail-IsRing,
}
use aco_os.LinkedList.Walk.{list_for_each-IsRing, list_empty-IsRing}
use aco_os.LinkedList.Splice.{list_splice-IsRing, list_splice_tail-IsRing, list_splice_init-IsRing}

-- Two rings: the head 1 with 2 and 3, and the head 5 with 6.
abbrev heap : Heap
heap = record {
  next = λ a.
      if a == 1 then 2 else if a == 2 then 3 else if a == 3 then 1 else if a == 5 then 6 else 5;
  prev = λ a.
      if a == 1 then 3 else if a == 2 then 1 else if a == 3 then 2 else if a == 5 then 6 else 5;
}

heap-IsRing : IsRing heap 1 (2 ∷ (3 ∷ []))
heap-IsRing = record {
  links = (refl, refl, (refl, refl, (refl, refl)));
  apart = (refl, (refl, (refl, tt)));
}

other-IsRing : IsRing heap 5 (6 ∷ [])
other-IsRing = record { links = (refl, refl, (refl, refl)); apart = (refl, (refl, tt)) }

list_add-IsRing_example : IsRing (list_add 4 1 heap) 1 (4 ∷ (2 ∷ (3 ∷ [])))
list_add-IsRing_example = list_add-IsRing heap 1 4 (2 ∷ (3 ∷ [])) heap-IsRing refl

list_add_tail-IsRing_example : IsRing (list_add_tail 4 1 heap) 1 (2 ∷ (3 ∷ (4 ∷ [])))
list_add_tail-IsRing_example = list_add_tail-IsRing heap 1 4 (2 ∷ (3 ∷ [])) heap-IsRing refl

node_add_aft-IsRing_example : IsRing (node_add_aft 2 4 heap) 1 (2 ∷ (4 ∷ (3 ∷ [])))
node_add_aft-IsRing_example = node_add_aft-IsRing heap 1 [] 2 (3 ∷ []) 4 heap-IsRing refl

node_add_bef-IsRing_example : IsRing (node_add_bef 3 4 heap) 1 (2 ∷ (4 ∷ (3 ∷ [])))
node_add_bef-IsRing_example = node_add_bef-IsRing heap 1 (2 ∷ []) 3 [] 4 heap-IsRing refl

list_del-IsRing_example : IsRing (list_del 2 heap) 1 (3 ∷ [])
list_del-IsRing_example = list_del-IsRing heap 1 [] 2 (3 ∷ []) heap-IsRing

list_del_init-IsRing_example :
    IsRing (list_del_init 2 heap) 1 (3 ∷ []) × IsRing (list_del_init 2 heap) 2 []
list_del_init-IsRing_example = list_del_init-IsRing heap 1 [] 2 (3 ∷ []) heap-IsRing

list_move-IsRing_example : IsRing (list_move 3 1 heap) 1 (3 ∷ (2 ∷ []))
list_move-IsRing_example = list_move-IsRing heap 1 (2 ∷ []) 3 [] heap-IsRing

list_move_tail-IsRing_example : IsRing (list_move_tail 2 1 heap) 1 (3 ∷ (2 ∷ []))
list_move_tail-IsRing_example = list_move_tail-IsRing heap 1 [] 2 (3 ∷ []) heap-IsRing

list_for_each-IsRing_example : list_for_each 3 1 heap ≡ ok (2 ∷ (3 ∷ []))
list_for_each-IsRing_example =
    list_for_each-IsRing heap 1 (2 ∷ (3 ∷ [])) 3 heap-IsRing (omega arith)

list_empty-IsRing_example : (list_empty 1 heap ≡ false) × (list_is_singular 1 heap ≡ false)
list_empty-IsRing_example = list_empty-IsRing heap 1 (2 ∷ (3 ∷ [])) heap-IsRing

rings-apart : Disjoint (5 ∷ (6 ∷ [])) (1 ∷ (2 ∷ (3 ∷ [])))
rings-apart a i = ground arith

list_splice-IsRing_example : IsRing (list_splice 5 1 heap) 1 (6 ∷ (2 ∷ (3 ∷ [])))
list_splice-IsRing_example =
    list_splice-IsRing heap 5 1 (6 ∷ []) (2 ∷ (3 ∷ [])) other-IsRing heap-IsRing rings-apart

list_splice_tail-IsRing_example : IsRing (list_splice_tail 5 1 heap) 1 (2 ∷ (3 ∷ (6 ∷ [])))
list_splice_tail-IsRing_example =
    list_splice_tail-IsRing heap 5 1 (6 ∷ []) (2 ∷ (3 ∷ [])) other-IsRing heap-IsRing rings-apart

list_splice_init-IsRing_example :
    IsRing (list_splice_init 5 1 heap) 1 (6 ∷ (2 ∷ (3 ∷ [])))
    × IsRing (list_splice_init 5 1 heap) 5 []
    × IsRing (list_splice_tail_init 5 1 heap) 1 (2 ∷ (3 ∷ (6 ∷ [])))
    × IsRing (list_splice_tail_init 5 1 heap) 5 []
list_splice_init-IsRing_example =
    list_splice_init-IsRing heap 5 1 (6 ∷ []) (2 ∷ (3 ∷ [])) other-IsRing heap-IsRing rings-apart

list_cut_position-IsRing_example :
    IsRing (list_cut_position 9 1 2 heap) 9 (2 ∷ [])
    × IsRing (list_cut_position 9 1 2 heap) 1 (3 ∷ [])
list_cut_position-IsRing_example = list_cut_position-IsRing heap 9 1 2 [] (3 ∷ []) heap-IsRing refl
