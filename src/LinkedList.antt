-- ===== src/LinkedList.antt =====
-- include/aco/list.h: the kernel's doubly linked lists, at the level of their pointers. A
-- `struct list_head` is an address; the heap maps it to its two links, and NULL is 0.
pub mod Chain
pub mod Insert
pub mod Remove
pub mod Walk
pub mod Splice
pub mod Cut
mod Tests
use aco_os.Base.{ℕ, zero, suc, Bool, ◌&&◌, not, List, [], ◌∷◌, ◌==◌, if◌then◌else◌, update, arith}
use aco_os.Base.Run.{Run, ok, out_of_fuel, ◌>>=◌}

pub record Heap : Type 0 where
  pub prev : ℕ → ℕ
  pub next : ℕ → ℕ

-- `p->next = q` and `p->prev = q`
abbrev pub set_next : ℕ → ℕ → Heap → Heap
set_next p q h = record h { next = update h.next p q }

abbrev pub set_prev : ℕ → ℕ → Heap → Heap
set_prev p q h = record h { prev = update h.prev p q }

pub init_list_head : ℕ → Heap → Heap
init_list_head head h = set_prev head head (set_next head head h)

pub init_node : ℕ → Heap → Heap
init_node node h = set_prev node 0 (set_next node 0 h)

pub list_add : ℕ → ℕ → Heap → Heap
list_add node head h =
    let next = h.next head in
    set_next head node (set_prev node head (set_next node next (set_prev next node h)))

pub node_add_aft : ℕ → ℕ → Heap → Heap
unfolding list_add
node_add_aft list_node join_node = list_add join_node list_node

pub list_add_tail : ℕ → ℕ → Heap → Heap
list_add_tail node head h =
    let prev = h.prev head in
    set_prev head node (set_prev node prev (set_next node head (set_next prev node h)))

pub node_add_bef : ℕ → ℕ → Heap → Heap
unfolding list_add_tail
node_add_bef list_node join_node = list_add_tail join_node list_node

-- without LIST_POISONING, which no build file defines
pub list_del : ℕ → Heap → Heap
list_del node h =
    let next = h.next node in
    let prev = h.prev node in
    set_next node 0 (set_prev node 0 (set_next prev next (set_prev next prev h)))

pub list_del_init : ℕ → Heap → Heap
unfolding list_del init_list_head
list_del_init node h = init_list_head node (list_del node h)

pub list_empty : ℕ → Heap → Bool
list_empty head h = h.next head == head

pub list_is_singular : ℕ → Heap → Bool
unfolding list_empty
list_is_singular head h = not (list_empty head h) && (h.prev head == h.next head)

pub list_splice : ℕ → ℕ → Heap → Heap
unfolding list_empty
list_splice list head h =
    let head_first = h.next head in
    let list_first = h.next list in
    let list_last = h.prev list in
    if list_empty list h
    then h
    else set_prev head_first list_last
        (set_next list_last head_first (set_prev list_first head (set_next head list_first h)))

pub list_splice_tail : ℕ → ℕ → Heap → Heap
unfolding list_empty
list_splice_tail list head h =
    let head_last = h.prev head in
    let list_first = h.next list in
    let list_last = h.prev list in
    if list_empty list h
    then h
    else set_next head_last list_first
        (set_prev list_first head_last (set_next list_last head (set_prev head list_last h)))

pub list_splice_init : ℕ → ℕ → Heap → Heap
unfolding list_splice init_list_head
list_splice_init list head h = init_list_head list (list_splice list head h)

pub list_splice_tail_init : ℕ → ℕ → Heap → Heap
unfolding list_splice_tail init_list_head
list_splice_tail_init list head h = init_list_head list (list_splice_tail list head h)

-- `head_from->next->prev` and `head_to->next->prev` are read after the write of `next`.
cut_links : ℕ → ℕ → ℕ → Heap → Heap
cut_links head_to head_from node h =
    let head_from_first = h.next head_from in
    let rest = h.next node in
    let h₁ = set_prev rest head_from (set_next head_from rest h) in
    let h₂ = set_next node head_to (set_prev head_to node h₁) in
    set_prev head_from_first head_to (set_next head_to head_from_first h₂)

pub list_cut_position : ℕ → ℕ → ℕ → Heap → Heap
unfolding list_empty init_list_head cut_links
list_cut_position head_to head_from node h =
    if list_empty head_from h
    then h
    else if head_from == node
    then init_list_head head_to h
    else cut_links head_to head_from node h

pub list_move : ℕ → ℕ → Heap → Heap
unfolding list_del list_add
list_move node head h = list_add node head (list_del node h)

pub list_move_tail : ℕ → ℕ → Heap → Heap
unfolding list_del list_add_tail
list_move_tail node head h = list_add_tail node head (list_del node h)

-- The nodes that `list_for_each` visits from `node` on, with fuel.
walk : ℕ → ℕ → ℕ → Heap → Run (List ℕ)
walk zero node head h = out_of_fuel
walk (suc k) node head h =
    let rest = walk k (h.next node) head h in
    if node == head then ok [] else rest >>= λ xs. ok (node ∷ xs)

pub list_for_each : ℕ → ℕ → Heap → Run (List ℕ)
unfolding walk
list_for_each fuel head h = walk fuel (h.next head) head h
