-- ===== src/Core/Space.antt =====
-- modules/stream-core/src/environment/storage_space.cpp
pub mod Layers
pub mod Sound
use stream_cloud.Prelude.{
  ℕ, suc, Bool, true, false, nat_eq, if◌then◌else◌, Option, none, some, List, [], ◌∷◌,
}
use stream_cloud.Core.Graph
use stream_cloud.Core.Graph.{Node, add_vertex, add_edge, finding_adjacency}

infixl 5 ◌>>=◌
-- What throws, throws.
abbrev pub ◌>>=◌ {ℓ κ} : {A : Type ℓ} {B : Type κ} → Option A → (A → Option B) → Option B
none >>= f = none
some a >>= f = f a

-- `storage`: the actors, by their ids
pub record Storage (A : Type 0) : Type 0 where
  pub counter : ℕ
  pub body : List (ℕ × A)

module _ {A : Type 0} where
  -- `body.at(id)`; `none` where it throws
  unfoldable pub body_at : ℕ → List (ℕ × A) → Option A
  body_at id [] = none
  body_at id ((k, a) ∷ rest) = let next = body_at id rest in if nat_eq id k then some a else next

  -- `body.emplace(id, a)`
  unfoldable pub body_emplace : ℕ → A → List (ℕ × A) → List (ℕ × A)
  body_emplace id a [] = (id, a) ∷ []
  body_emplace id a ((k, b) ∷ rest) =
      let next = body_emplace id a rest in if nat_eq id k then (k, b) ∷ rest else (k, b) ∷ next

  unfoldable pub add_actor : A → Storage A → ℕ × Storage A
  unfolding body_emplace
  add_actor object s =
      let id = s.counter in
      (id, record { counter = suc s.counter; body = body_emplace id object s.body })

  unfoldable pub get_actor : ℕ → Storage A → Option A
  unfolding body_at
  get_actor id s = body_at id s.body

  -- the loop of `current_layer`
  unfoldable pub get_actors : List ℕ → Storage A → Option (List A)
  unfolding get_actor
  get_actors [] s = some []
  get_actors (i ∷ rest) s = do a ← get_actor i s; tmp ← get_actors rest s; some (a ∷ tmp)

-- `storage_space::impl`
pub record Space (A : Type 0) : Type 0 where
  pub actors : Storage A
  pub registry : List Node

module _ {A : Type 0} where
  abbrev pub new_space : Space A
  new_space = record { actors = record { counter = 0; body = [] }; registry = [] }

  unfoldable pub add : A → Space A → ℕ × Space A
  unfolding add_actor add_vertex
  add t s =
      let (index, actors) = add_actor t s.actors in
      (index, record { actors = actors; registry = add_vertex index s.registry })

  unfoldable pub create_link : ℕ → ℕ → Space A → Space A
  unfolding add_edge
  create_link id id1 s = record s { registry = add_edge id id1 s.registry }

  unfoldable pub get : ℕ → Space A → Option A
  unfolding get_actor
  get id s = get_actor id s.actors

  unfoldable pub current_layer : ℕ → Space A → Option (List A)
  unfolding get_actors finding_adjacency
  current_layer id s = do
    all_id_current_layer ← finding_adjacency id s.registry
    get_actors all_id_current_layer s.actors
