-- ===== src/Core/Graph/Sorted.antt =====
-- The sorted list of a node's vertices, as a set.
use stream_cloud.Prelude.{
  ℕ, suc, Bool, true, false, ◌≡◌, ◌||◌, ◌<◌, ◌≤◌, refl, ltb, nat_eq, if◌then◌else◌, List, [], ◌∷◌,
  arith, Bool-cases, inl, inr,
}
use stream_cloud.Core.Executor.Office.{nat_eq_refl, eq_of_nat_eq}
use stream_cloud.Core.Graph.{Node, binary_search, insert, vertex_id, add}

abbrev pub elem : ℕ → List ℕ → Bool
elem j [] = false
elem j (x ∷ xs) = nat_eq j x || elem j xs

-- Strictly ascending, from `low` on.
abbrev pub IsAscending : ℕ → List ℕ → Type 0
IsAscending low [] = Unit
IsAscending low (x ∷ xs) = (low ≤ x) × IsAscending (suc x) xs

elem_low : (j low : ℕ) (l : List ℕ) → IsAscending low l → j < low → elem j l ≡ false
elem_low j low [] h k = refl
elem_low j low (x ∷ xs) (a, h) k = ground (arith, elem_low j (suc x) xs h (omega arith))

pub binary_search-elem :
    (j low : ℕ) (l : List ℕ) → IsAscending low l → binary_search vertex_id j l ≡ elem j l
unfolding binary_search
binary_search-elem j low [] h = refl
binary_search-elem j low (x ∷ xs) (a, h) = elim (Bool-cases (ltb x j)) [
  | inl e ↦ ground (arith, binary_search-elem j (suc x) xs h)
  | inr e ↦ ground (arith, elem_low j (suc x) xs h (ground arith))
]

insert-IsAscending :
    (j low : ℕ) (l : List ℕ)
    → IsAscending low l
    → low ≤ j
    → elem j l ≡ false
    → IsAscending low (insert vertex_id j l)
unfolding insert
insert-IsAscending j low [] h k e = (k, tt)
insert-IsAscending j low (x ∷ xs) (a, h) k e = elim (Bool-cases (ltb j x)) [
  | inl d ↦ rw d (k, (ground arith, h))
  | inr d ↦ rw d (a, insert-IsAscending j (suc x) xs h (ground arith) (ground arith))
]

elem-insert : (i j : ℕ) (l : List ℕ) → elem i (insert vertex_id j l) ≡ (nat_eq i j || elem i l)
unfolding insert
elem-insert i j [] = ground arith
elem-insert i j (x ∷ xs) = ground (arith, elem-insert i j xs)

add-list_vertex :
    (j : ℕ) (node : Node)
    → IsAscending 0 node.list_vertex
    → (add j node).list_vertex
      ≡ (if elem j node.list_vertex then node.list_vertex else insert vertex_id j node.list_vertex)
unfolding add
add-list_vertex j node h = ground (arith, binary_search-elem j 0 node.list_vertex h)

elem_same : (i j : ℕ) (l : List ℕ) → elem j l ≡ true → elem i l ≡ (nat_eq i j || elem i l)
elem_same i j l e = elim (Bool-cases (nat_eq i j)) [
  | inl d ↦ rw (eq_of_nat_eq i j d, e, nat_eq_refl j)
  | inr d ↦ rw d
]

-- `node::add` keeps the list ascending, and adds the vertex to the set.
pub add-IsAscending :
    (j : ℕ) (node : Node) → IsAscending 0 node.list_vertex → IsAscending 0 (add j node).list_vertex
add-IsAscending j node h = elim (Bool-cases (elem j node.list_vertex)) [
  | inl e ↦ rw (add-list_vertex j node h, e) h
  | inr e ↦
      rw (add-list_vertex j node h, e) (insert-IsAscending j 0 node.list_vertex h (omega arith) e)
]

pub elem-add :
    (i j : ℕ) (node : Node)
    → IsAscending 0 node.list_vertex
    → elem i (add j node).list_vertex ≡ (nat_eq i j || elem i node.list_vertex)
elem-add i j node h = elim (Bool-cases (elem j node.list_vertex)) [
  | inl e ↦ rw (add-list_vertex j node h, e) (elem_same i j node.list_vertex e)
  | inr e ↦ rw (add-list_vertex j node h, e) (elem-insert i j node.list_vertex)
]
