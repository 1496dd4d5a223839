-- ===== src/Core/Actor.antt =====
-- modules/stream-core/src: behavior/reactions.cpp and type_action.cpp, actor/local_actor.cpp, and
-- the handlers of standard_handlers that every actor has.
pub mod Reactions
use stream_cloud.Prelude.{
  String, ℕ, Bool, true, false, nat_eq, if◌then◌else◌, Option, none, some, List, [], ◌∷◌, ◌++◌, map,
  Assoc, emplace, lookup, contains,
}
use stream_cloud.Api.Action.{
  Result, ok, threw, undefined, Action, pure, lift, gets, modify, emit, or_throw, ◌>>=◌,
}

-- What is known of the addresses of actors and of channels: their names, and the commands that an
-- actor has reactions for. `hash` is std::hash, and `what` the text of the exception of `at`.
pub record Names (A C : Type 0) : Type 0 where
  pub hash : String → ℕ
  pub what : String
  pub name : A → String
  pub types : A → List String
  pub channel_name : C → String

-- The reactions of an actor: the three that every actor has, and those that are attached.
pub data Reaction (H : Type 0) : Type 0 where
  sync_contacts skip add_channel : Reaction H
  attached : H → Reaction H

-- The bodies that the standard reactions read; an address or a channel may be a null pointer.
pub data Body (A C B : Type 0) : Type 0 where
  address : Option A → Body A C B
  channel : Option C → Body A C B
  other : B → Body A C B

pub record Letter (A C B : Type 0) : Type 0 where
  pub command : String
  pub sender : A
  pub body : Body A C B

-- A message "error" with the command that was not known.
pub record ErrorSent (A : Type 0) : Type 0 where
  pub to : A
  pub command : String

-- `local_actor`
pub record LocalActor (A C H : Type 0) : Type 0 where
  pub reactions : List (String × Reaction H)
  pub contacts : Assoc A
  pub channels : Assoc C

module _ {A C : Type 0} (names : Names A C) where
  -- `type_action::operator==`: the hashes are compared, not the texts
  abbrev pub same_action : String → String → Bool
  same_action a b = nat_eq (names.hash a) (names.hash b)

  -- `reactions_.find(command)`
  unfoldable pub find_reaction :
      {H : Type 0} → String → List (String × Reaction H) → Option (Reaction H)
  find_reaction command [] = none
  find_reaction command ((k, r) ∷ rest) =
      let next = find_reaction command rest in if same_action k command then some r else next

  -- `reactions::execute`, as far as the choice of the reaction
  unfoldable pub choose : {H : Type 0} → String → List (String × Reaction H) → Result (Reaction H)
  unfolding find_reaction
  choose command reactions = elim (find_reaction command reactions) [
    | some r ↦ ok r
    | none ↦ or_throw names.what (find_reaction "skip" reactions)
  ]

  -- `reactions::add`
  unfoldable pub add :
      {H : Type 0}
      → String
      → Reaction H
      → List (String × Reaction H)
      → Bool × List (String × Reaction H)
  unfolding find_reaction
  add name r reactions = elim (find_reaction name reactions) [
    | none ↦ (true, reactions ++ ((name, r) ∷ []))
    | some _ ↦ (false, reactions)
  ]

  -- `local_actor::initialize`
  unfoldable pub initialize : {H : Type 0} → LocalActor A C H
  unfolding add
  initialize =
      let one = (add "sync_contacts" sync_contacts []).1 in
      let two = (add "skip" skip one).1 in
      record { reactions = (add "add_channel" add_channel two).1; contacts = []; channels = [] }

  unfoldable pub attach : {H : Type 0} → String → H → LocalActor A C H → LocalActor A C H
  unfolding add
  attach name h self = record self { reactions = (add name (attached h) self.reactions).1 }

  -- `addresses(aa)` and `channel(channel_)`, which keep an entry that is there
  unfoldable pub add_address : {H : Type 0} → A → LocalActor A C H → LocalActor A C H
  unfolding emplace
  add_address a self = record self { contacts = emplace (names.name a) a self.contacts }

  unfoldable pub add_to_channels : {H : Type 0} → C → LocalActor A C H → LocalActor A C H
  unfolding emplace
  add_to_channels c self = record self { channels = emplace (names.channel_name c) c self.channels }

  unfoldable pub addresses : {H : Type 0} → String → LocalActor A C H → Result A
  addresses name self = or_throw names.what (lookup name self.contacts)

  unfoldable pub channels : {H : Type 0} → String → LocalActor A C H → Result C
  channels name self = or_throw names.what (lookup name self.channels)

  -- a set in the source: each name is there once, since `add` lets no name in twice
  unfoldable pub message_types : {H : Type 0} → LocalActor A C H → List String
  message_types self = map (λ p. p.0) self.reactions

  -- `skip::invoke`
  unfoldable pub invoke_skip :
      {H B : Type 0} → Letter A C B → Action (ErrorSent A) (LocalActor A C H) Unit
  unfolding contains
  invoke_skip letter =
      if contains "error" (names.types letter.sender)
      then emit (record { to = letter.sender; command = letter.command })
      else pure tt

  -- `sync_contacts::invoke`: a null pointer is dereferenced for its name
  unfoldable pub invoke_sync_contacts :
      {H B : Type 0} → Letter A C B → Action (ErrorSent A) (LocalActor A C H) Unit
  unfolding add_address
  invoke_sync_contacts letter = elim letter.body [
    | address (some a) ↦ modify (add_address a)
    | _ ↦ lift undefined
  ]

  -- `add_channel::invoke`: so too
  unfoldable pub invoke_add_channel :
      {H B : Type 0} → Letter A C B → Action (ErrorSent A) (LocalActor A C H) Unit
  unfolding add_to_channels
  invoke_add_channel letter = elim letter.body [
    | channel (some c) ↦ modify (add_to_channels c)
    | _ ↦ lift undefined
  ]

  -- `reactions_.execute(context)`, where `invoke` is what an attached handler does
  unfoldable pub execute :
      {H B : Type 0}
      → (H → Letter A C B → Action (ErrorSent A) (LocalActor A C H) Unit)
      → Letter A C B
      → Action (ErrorSent A) (LocalActor A C H) Unit
  unfolding choose invoke_skip invoke_sync_contacts invoke_add_channel
  execute invoke letter = do
    reactions ← gets (λ self. self.reactions)
    reaction ← lift (choose letter.command reactions)
    elim reaction [
      | sync_contacts ↦ invoke_sync_contacts letter
      | skip ↦ invoke_skip letter
      | add_channel ↦ invoke_add_channel letter
      | attached h ↦ invoke h letter
    ]
