-- ===== src/Core/Graph/Vertices.antt =====
-- The stored vertices, when the position of each is its id.
use stream_cloud.Prelude.{
  ℕ, zero, suc, ◌∙◌, false, ◌≡◌, ◌<◌, ◌≤◌, ◌+◌, refl, ltb, nat_eq, if◌then◌else◌, List, [], ◌∷◌,
  ◌++◌, arith, Bool-cases, inl, inr, get_elem?,
}
use mathlib.Core.Option
use stream_cloud.Core.Executor.{length}
use stream_cloud.Core.Graph.{
  Node, node_id, new_node, binary_search, insert, update, add, add_vertex, add_edge,
}

-- The ids go up by one, from `low` on.
abbrev pub IsConsecutive : ℕ → List Node → Type 0
IsConsecutive low [] = Unit
IsConsecutive low (x ∷ xs) = (x.id ≡ low) × IsConsecutive (suc low) xs

search_above :
    (id low : ℕ) (ddd : List Node)
    → IsConsecutive low ddd
    → id < low
    → binary_search node_id id ddd ≡ false
unfolding binary_search
search_above id low [] h k = refl
search_above id low (x ∷ xs) (e, h) k = ground (arith, search_above id (suc low) xs h (omega arith))

pub binary_search-IsConsecutive :
    (id low : ℕ) (ddd : List Node)
    → IsConsecutive low ddd
    → low ≤ id
    → binary_search node_id id ddd ≡ ltb id (low + length ddd)
unfolding binary_search
binary_search-IsConsecutive id low [] h k = ground arith
binary_search-IsConsecutive id low (x ∷ xs) (e, h) k = elim (Bool-cases (ltb low id)) [
  | inl d ↦ ground (arith, binary_search-IsConsecutive id (suc low) xs h (ground arith))
  | inr d ↦ ground arith
]

insert_last :
    (n low : ℕ) (ddd : List Node)
    → IsConsecutive low ddd
    → n ≡ low + length ddd
    → insert node_id (new_node n) ddd ≡ ddd ++ (new_node n ∷ [])
unfolding insert
insert_last n low [] h k = refl
insert_last n low (x ∷ xs) (e, h) k = ground (arith, insert_last n (suc low) xs h (omega arith))

-- `add_vertex` with the next id puts a new vertex at the end.
pub add_vertex_lem :
    (ddd : List Node)
    → IsConsecutive 0 ddd
    → add_vertex (length ddd) ddd ≡ ddd ++ (new_node (length ddd) ∷ [])
unfolding add_vertex
add_vertex_lem ddd h = ground (
  arith,
  binary_search-IsConsecutive (length ddd) 0 ddd h (omega arith),
  insert_last (length ddd) 0 ddd h (omega arith),
)

pub append-IsConsecutive :
    (n low : ℕ) (ddd : List Node)
    → IsConsecutive low ddd
    → n ≡ low + length ddd
    → IsConsecutive low (ddd ++ (new_node n ∷ []))
append-IsConsecutive n low [] h k = (omega arith, tt)
append-IsConsecutive n low (x ∷ xs) (e, h) k =
    (e, append-IsConsecutive n (suc low) xs h (omega arith))

pub update-IsConsecutive :
    (f : Node → Node) (id low : ℕ) (ddd : List Node)
    → ((x : Node) → (f x).id ≡ x.id)
    → IsConsecutive low ddd
    → IsConsecutive low (update node_id f id ddd)
unfolding update
update-IsConsecutive f id low [] k h = tt
update-IsConsecutive f id low (x ∷ xs) k (e, h) = elim (Bool-cases (ltb x.id id)) [
  | inl d ↦ rw d (e, update-IsConsecutive f id (suc low) xs k h)
  | inr d ↦ rw d (k x ∙ e, h)
]

-- `update` changes the vertex at its id.
pub lookup-update :
    (f : Node → Node) (n j id low : ℕ) (ddd : List Node)
    → IsConsecutive low ddd
    → n ≡ low + id
    → get_elem? (update node_id f n ddd) j
      ≡ (if nat_eq j id then Option.map f (get_elem? ddd j) else get_elem? ddd j)
unfolding update
lookup-update f n j id low [] h k = ground arith
lookup-update f n zero zero low (x ∷ xs) (e, h) k = ground arith
lookup-update f n (suc j) zero low (x ∷ xs) (e, h) k = ground arith
lookup-update f n zero (suc id) low (x ∷ xs) (e, h) k = ground arith
lookup-update f n (suc j) (suc id) low (x ∷ xs) (e, h) k =
    ground (arith, lookup-update f n j id (suc low) xs h (omega arith))

pub length-update :
    (f : Node → Node) (id : ℕ) (ddd : List Node) → length (update node_id f id ddd) ≡ length ddd
unfolding update
length-update f id [] = refl
length-update f id (x ∷ xs) = ground (arith, length-update f id xs)

pub add-id : (j : ℕ) (x : Node) → (add j x).id ≡ x.id
unfolding add
add-id j x = ground arith

-- `add_edge` between two vertices of the graph changes the list of the first.
pub add_edge_lem :
    (id_1 id_2 : ℕ) (ddd : List Node)
    → IsConsecutive 0 ddd
    → id_1 < length ddd
    → id_2 < length ddd
    → add_edge id_1 id_2 ddd ≡ update node_id (add id_2) id_1 ddd
unfolding add_edge add_vertex
add_edge_lem id_1 id_2 ddd h k l = ground (
  arith,
  binary_search-IsConsecutive id_1 0 ddd h (omega arith),
  binary_search-IsConsecutive id_2 0 (update node_id (add id_2) id_1 ddd)
      (update-IsConsecutive (add id_2) id_1 0 ddd (add-id id_2) h) (omega arith),
  length-update (add id_2) id_1 ddd,
)
