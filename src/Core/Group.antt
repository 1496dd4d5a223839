-- ===== src/Core/Group.antt =====
-- modules/stream-core/src/environment/abstract_group.cpp
pub mod RoundRobin
use stream_cloud.Prelude.{
  String, ℕ, suc, Bool, true, false, leb, is_nil, if◌then◌else◌, get_elem?, Option, List, [], ◌∷◌,
  ◌++◌,
}
use stream_cloud.Api.Action.{
  Action, pure, lift, gets, modify, emit, or_throw, or_undefined, ◌>>=◌, ◌>>◌,
}
use stream_cloud.Core.Executor.{length}
use stream_cloud.Core.Space
use stream_cloud.Core.Space.{Space}

-- `abstract_group`, without the space that it shares with other groups
pub record Group : Type 0 where
  pub cursor : ℕ
  pub entry_point : ℕ
  pub shared_point : List ℕ

pub record Grouped (A : Type 0) : Type 0 where
  pub group : Group
  pub space : Space A

-- What the actors are sent: a message of another sender, the address of a contact, or the channel
-- of the group.
pub data Letter (A M : Type 0) : Type 0 where
  passed : M → Letter A M
  sync_contacts : A → Letter A M
  add_channel : Letter A M

pub record Delivery (A M : Type 0) : Type 0 where
  pub to : A
  pub letter : Letter A M

-- `++cursor; if (cursor >= size) cursor = 0;`
abbrev pub next_cursor : ℕ → ℕ → ℕ
next_cursor size cursor = if leb size (suc cursor) then 0 else suc cursor

-- `what` is the text of the exception of `at`.
module _ {A M : Type 0} (what : String) where
  abbrev pub deliver : A → Letter A M → Action (Delivery A M) (Grouped A) Unit
  deliver a letter = emit (record { to = a; letter = letter })

  -- `storage_space_.get(id)`
  abbrev pub get : ℕ → Action (Delivery A M) (Grouped A) A
  get id = do found ← gets (λ s. Space.get id s.space); lift (or_throw what found)

  -- `storage_space_.current_layer(entry_point_)`
  abbrev pub entry_layer : Action (Delivery A M) (Grouped A) (List A)
  entry_layer = do
    found ← gets (λ s. Space.current_layer s.group.entry_point s.space)
    lift (or_throw what found)

  abbrev pub entry_point_of : Action (Delivery A M) (Grouped A) A
  entry_point_of = do id ← gets (λ s. s.group.entry_point); get id

  abbrev pub add_to_space : A → Action (Delivery A M) (Grouped A) ℕ
  add_to_space t = do
    index ← gets (λ s. (Space.add t s.space).0)
    modify (λ s. record s { space = (Space.add t s.space).1 })
    pure index

  -- `for (auto &i : shared_point) t->send(… "sync_contacts", storage_space_.get(i) …)`
  unfoldable pub tell_shared : A → List ℕ → Action (Delivery A M) (Grouped A) Unit
  tell_shared t [] = pure tt
  tell_shared t (i ∷ rest) =
      let next = tell_shared t rest in do address ← get i; deliver t (sync_contacts address); next

  -- `for (auto &i : layer) i->send(letter)`
  unfoldable pub tell_all : Letter A M → List A → Action (Delivery A M) (Grouped A) Unit
  tell_all letter [] = pure tt
  tell_all letter (a ∷ rest) = let next = tell_all letter rest in (do deliver a letter; next)

  unfoldable pub add : A → Action (Delivery A M) (Grouped A) Unit
  unfolding tell_shared
  add t = do
    shared ← gets (λ s. s.group.shared_point)
    tell_shared t shared
    index ← add_to_space t
    modify (λ s. record s { space = Space.create_link s.group.entry_point index s.space })

  unfoldable pub add_shared : A → Action (Delivery A M) (Grouped A) Unit
  unfolding tell_all
  add_shared t = do
    id ← add_to_space t
    modify (λ s. record s {
      group = record s.group { shared_point = s.group.shared_point ++ (id ∷ []) };
    })
    entry ← entry_point_of
    deliver entry (sync_contacts t)
    layer ← entry_layer
    tell_all (sync_contacts t) layer

  -- `g` is the address of the other group's entry point.
  unfoldable pub join : A → Action (Delivery A M) (Grouped A) Unit
  unfolding tell_all
  join g = do
    entry ← entry_point_of
    deliver entry (sync_contacts g)
    layer ← entry_layer
    tell_all (sync_contacts g) layer

  -- the constructor, for an actor and the space that it goes into
  unfoldable pub new_group : A → Space A → List (Delivery A M) × Grouped A
  new_group t space =
      let (id, space') = Space.add t space in
      (
        record { to = t; letter = add_channel } ∷ [],
        record {
          group = record { cursor = 0; entry_point = id; shared_point = [] };
          space = space';
        },
      )

  unfoldable pub send : M → Action (Delivery A M) (Grouped A) Bool
  send msg = do
    tmp_address ← entry_layer
    if is_nil tmp_address then pure false else (do
      cursor ← gets (λ s. s.group.cursor)
      a ← lift (or_undefined (get_elem? tmp_address cursor))
      deliver a (passed msg)
      modify (λ s. record s {
        group = record s.group { cursor = next_cursor (length tmp_address) cursor };
      })
      pure true)

  unfoldable pub broadcast : M → Action (Delivery A M) (Grouped A) Bool
  unfolding tell_all
  broadcast msg = do
    tmp_address ← entry_layer
    if is_nil tmp_address then pure false else (do tell_all (passed msg) tmp_address; pure true)
