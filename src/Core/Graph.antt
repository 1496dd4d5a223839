-- ===== src/Core/Graph.antt =====
-- modules/stream-core/src/environment/adjacency_list.hpp
pub mod Sorted
pub mod Vertices
use stream_cloud.Prelude.{
  ℕ, Bool, true, false, not, ltb, if◌then◌else◌, Option, none, some, List, [], ◌∷◌, get_elem?,
}

-- The algorithms of the standard library on a range that is sorted by `key`.
module _ {A : Type 0} (key : A → ℕ) where
  unfoldable pub binary_search : ℕ → List A → Bool
  binary_search id [] = false
  binary_search id (x ∷ xs) =
      let rest = binary_search id xs in if ltb (key x) id then rest else not (ltb id (key x))

  -- `v.insert(std::upper_bound(v.begin(), v.end(), key x), x)`
  unfoldable pub insert : A → List A → List A
  insert a [] = a ∷ []
  insert a (x ∷ xs) = let rest = insert a xs in if ltb (key a) (key x) then a ∷ x ∷ xs else x ∷ rest

  -- `it = std::lower_bound(…); if (it != v.end()) { *it = f(*it); }`
  unfoldable pub update : (A → A) → ℕ → List A → List A
  update f id [] = []
  update f id (x ∷ xs) = let rest = update f id xs in if ltb (key x) id then x ∷ rest else f x ∷ xs

abbrev pub vertex_id : ℕ → ℕ
vertex_id id = id

-- `node`
pub record Node : Type 0 where
  pub id : ℕ
  pub list_vertex : List ℕ

abbrev pub node_id : Node → ℕ
node_id node = node.id

-- `Node(id)`
abbrev pub new_node : ℕ → Node
new_node id = record { id = id; list_vertex = [] }

-- `node::add`
unfoldable pub add : ℕ → Node → Node
unfolding binary_search insert
add id node =
    if not (binary_search vertex_id id node.list_vertex)
    then record node { list_vertex = insert vertex_id id node.list_vertex }
    else node

-- `stored_vertex`, by its member `ddd`
unfoldable pub add_vertex : ℕ → List Node → List Node
unfolding binary_search insert
add_vertex id ddd =
    if not (binary_search node_id id ddd) then insert node_id (new_node id) ddd else ddd

-- `ddd.at(id)`: by position; `none` where it throws
unfoldable pub lookup : ℕ → List Node → Option Node
lookup id ddd = get_elem? ddd id

unfoldable pub add_edge : ℕ → ℕ → List Node → List Node
unfolding binary_search insert update add add_vertex
add_edge id_1 id_2 ddd = add_vertex id_2 (
    if not (binary_search node_id id_1 ddd)
    then insert node_id (add id_2 (new_node id_1)) ddd
    else update node_id (add id_2) id_1 ddd)

-- `adjacency_list::finding_adjacency`
unfoldable pub finding_adjacency : ℕ → List Node → Option (List ℕ)
unfolding lookup
finding_adjacency id ddd = elim (lookup id ddd) [ none ↦ none | some node ↦ some node.list_vertex ]
