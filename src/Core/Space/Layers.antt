-- ===== src/Core/Space/Layers.antt =====
-- The layers of the spaces that are built.
use stream_cloud.Prelude.{
  ℕ, zero, suc, true, ◌≡◌, ◌<◌, refl, sym, ◌∙◌, some, List, [], ◌∷◌, arith, get_elem?,
}
use stream_cloud.Core.Executor.{length}
use stream_cloud.Core.Executor.Office.{nat_eq_refl}
use stream_cloud.Core.Graph.{Node, finding_adjacency, lookup}
use stream_cloud.Core.Graph.Sorted.{IsAscending, elem}
use stream_cloud.Core.Space.{Storage, Space, current_layer, get_actor, get_actors}
use stream_cloud.Core.Space.Sound.{
  linked, Built, started, added, made, IsSound, IsSound-new_space, IsSound-add, IsSound-create_link,
}

found_node : (j : ℕ) (l : List Node) → j < length l → (node : Node) × (get_elem? l j ≡ some node)
found_node j [] h = absurd (omega arith)
found_node zero (x ∷ l) h = (x, refl)
found_node (suc j) (x ∷ l) h = found_node j l (omega arith)

module _ {A : Type 0} where
  Built-IsSound : (links : List (ℕ × ℕ)) (s : Space A) → Built links s → IsSound links s
  Built-IsSound links s started = IsSound-new_space
  Built-IsSound links s (added t links' s' r) = IsSound-add t links s' (Built-IsSound links s' r)
  Built-IsSound links s (made a b links' s' r k l) =
      IsSound-create_link a b links' s' (Built-IsSound links' s' r) k l

  get_actors_total :
      (ids : List ℕ) (s : Storage A)
      → ((j : ℕ) → elem j ids ≡ true → (a : A) × (get_actor j s ≡ some a))
      → (layer : List A) × (get_actors ids s ≡ some layer)
  unfolding get_actors
  get_actors_total [] s h = ([], refl)
  get_actors_total (i ∷ rest) s h =
      let (a, e) = h i (ground (arith, nat_eq_refl i)) in
      let (layer, d) = get_actors_total rest s (λ j k. h j (ground arith)) in (a ∷ layer, rw (e, d))

  current_layer-found :
      (id : ℕ) (s : Space A) (node : Node)
      → get_elem? s.registry id ≡ some node
      → current_layer id s ≡ get_actors node.list_vertex s.actors
  unfolding current_layer finding_adjacency lookup
  current_layer-found id s node e = rw (current_layer, finding_adjacency, lookup, e) refl

  -- The layer of `id`: the actors of the vertices that a link leads to, each once, in the order of
  -- their ids.
  pub record AreLinked (links : List (ℕ × ℕ)) (s : Space A) (id : ℕ) : Type 0 where
    pub ids : List ℕ
    pub ascending : IsAscending 0 ids
    pub member : (j : ℕ) → elem j ids ≡ linked id j links
    pub layer : List A
    pub actors : get_actors ids s.actors ≡ some layer
    pub current : current_layer id s ≡ some layer

  -- In a space that was built by adding actors and linking actors that were there, `current_layer` of
  -- an actor throws no exception, and is the list of the actors to which a link from it was made,
  -- each once however often it was linked, in the order in which they were added.
  pub current_layer-AreLinked :
      (links : List (ℕ × ℕ)) (s : Space A) (id : ℕ)
      → Built links s
      → id < length s.registry
      → AreLinked links s id
  current_layer-AreLinked links s id r k =
      let h = Built-IsSound links s r in
      let (node, e) = found_node id s.registry k in
      let (ascending, member) = h.lists id node e in
      let (layer, d) =
        get_actors_total node.list_vertex s.actors
          (λ j m. h.stored j (h.bounded j id (sym (member j) ∙ m)).0) in
      record {
        ids = node.list_vertex;
        ascending = ascending;
        member = member;
        layer = layer;
        actors = d;
        current = current_layer-found id s node e ∙ d;
      }
