-- ===== src/Examples/Graph.antt =====
-- The graph of the actors and the groups at concrete inputs: the actors are numbers.
use stream_cloud.Prelude.{String, ℕ, ◌≡◌, refl, some, [], ◌∷◌, arith}
use stream_cloud.Api.Action.{ok}
use stream_cloud.Core.Graph
use stream_cloud.Core.Graph.{binary_search, insert, update, lookup}
use stream_cloud.Core.Space
use stream_cloud.Core.Space.{
  Space, new_space, body_at, body_emplace, add_actor, get_actor, get_actors, current_layer,
}
use stream_cloud.Core.Space.Sound.{Built, started, added, made}
use stream_cloud.Core.Space.Layers.{AreLinked, current_layer-AreLinked}
use stream_cloud.Core.Group.{Grouped}
use stream_cloud.Core.Group.RoundRobin.{send_each, send_each-round, paired}

-- Opens what an operation of a space calls.
unfoldable building : Unit {0}
unfolding Graph.add Graph.add_vertex Graph.add_edge Graph.finding_adjacency binary_search insert
    update lookup Space.add Space.create_link Space.get body_at body_emplace add_actor get_actor
    get_actors current_layer
building = tt

-- an entry point 10 and two actors, 11 and 12, linked in another order than added
abbrev three : Space ℕ
three = (Space.add 12 (Space.add 11 (Space.add 10 new_space).1).1).1

abbrev linked_space : Space ℕ
linked_space = Space.create_link 0 1 (Space.create_link 0 2 three)

linked_space-Built : Built ((0, 1) ∷ (0, 2) ∷ []) linked_space
unfolding building
linked_space-Built =
    made 0 1 ((0, 2) ∷ []) _
      (made 0 2 [] _ (added 12 [] _ (added 11 [] _ (added 10 [] _ started))) (omega arith)
        (omega arith))
      (omega arith) (omega arith)

layer_run : current_layer 0 linked_space ≡ some (11 ∷ 12 ∷ [])
unfolding building
layer_run = refl

current_layer-AreLinked_example : AreLinked ((0, 1) ∷ (0, 2) ∷ []) linked_space 0
unfolding building
current_layer-AreLinked_example =
    current_layer-AreLinked ((0, 1) ∷ (0, 2) ∷ []) linked_space 0 linked_space-Built (omega arith)

abbrev group : Grouped ℕ
group = record {
  group = record { cursor = 0; entry_point = 0; shared_point = [] };
  space = linked_space;
}

send_each-round_example :
    send_each {M = String} "at" ("a" ∷ "b" ∷ []) group
    ≡ record { result = ok tt; state = group; sent = paired (11 ∷ 12 ∷ []) ("a" ∷ "b" ∷ []) }
send_each-round_example =
    send_each-round "at" (11 ∷ 12 ∷ []) ("a" ∷ "b" ∷ []) group layer_run refl refl
