-- ===== src/Platform/Router/Access.antt =====
-- Which tasks the platform's router hands to a service.
use stream_cloud.Prelude.{
  String, true, false, ◌≡◌, inl, inr, List, [], ◌∷◌, arith, Assoc, contains, Bool-cases,
}
use stream_cloud.Api.Libraries.{Libraries}
use stream_cloud.Api.Rpc
use stream_cloud.Api.Rpc.{RequestMessage}
use stream_cloud.Api.Message.{Task, Message, Context, task_body, storage_at, send, reply}
use stream_cloud.Platform.Router.{get_service_list, get_quest_method_list, route, service}

module _ (L : Libraries) (ctx : Context) (task : Task L.json) where
  -- The names that the dispatcher has put into the task.
  abbrev pub named_service : String
  named_service = (storage_at "service.name" task.storage).0

  abbrev pub storage1 : Assoc String
  storage1 = (storage_at "service.name" task.storage).1

  abbrev pub named_method : String
  named_method = (storage_at "service.method" storage1).0

  abbrev pub handed_on : Message L.json
  handed_on = record {
    contact = named_service;
    command = named_method;
    body = task_body (record task { storage = (storage_at "service.method" storage1).1 });
  }

  -- A task that the service handler hands on goes to a listed service that accepts its command.
  pub service-Listed :
      (m : Message L.json) (t : Task L.json)
      → (service L ctx task tt).sent ≡ m ∷ []
      → m.body ≡ task_body t
      → (contains named_service get_service_list ≡ true)
        × (ctx.message_types named_service named_method ≡ true)
        × (m ≡ handed_on)
  unfolding service send reply
  service-Listed m t sent body = elim (Bool-cases (contains named_service get_service_list)) [
    | inl a ↦ elim (Bool-cases (ctx.contacts named_service)) [
      | inl b ↦ elim (Bool-cases (ctx.message_types named_service named_method)) [
        | inl c ↦ (a, c, ground arith)
        | inr c ↦ absurd (ground arith)
      ]
      | inr b ↦ absurd (ground arith)
    ]
    | inr a ↦ absurd (ground arith)
  ]

module _ (L : Libraries) (ctx : Context) where
  -- Of a request without a key, a task is sent for a method that is open to guests, and no other.
  pub route_guest :
      (id : String) (request : RequestMessage L.json) (parts : List String) (m : Message L.json)
      (t : Task L.json)
      → Rpc.contains L.json request.metadata "profile-key" ≡ false
      → (route L ctx id request parts tt).sent ≡ m ∷ []
      → m.body ≡ task_body t
      → contains request.method get_quest_method_list ≡ true
  unfolding route send reply
  route_guest id request [] m t key sent body = ground arith
  route_guest id request (a ∷ []) m t key sent body = ground arith
  route_guest id request (a ∷ b ∷ rest) m t key sent body = ground arith
