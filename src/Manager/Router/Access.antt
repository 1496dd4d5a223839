-- ===== src/Manager/Router/Access.antt =====
-- Which tasks the router hands to a service.
use stream_cloud.Prelude.{
  String, true, false, ◌≡◌, ◌==◌, ◌||◌, inl, inr, List, [], ◌∷◌, arith, Assoc, contains, Bool-cases,
}
use stream_cloud.Api.Libraries.{Libraries}
use stream_cloud.Api.Rpc
use stream_cloud.Api.Rpc.{RequestMessage}
use stream_cloud.Api.Message.{Task, Message, Context, task_body, storage_at, send, reply}
use stream_cloud.Manager.Router.{
  Router, get_service_list, get_quest_method_list, get_user_method_list, task_of, route, service,
}

module _ (L : Libraries) (ctx : Context) (self : Router) where
  -- If the dispatcher sends one message for a request without a key, and that message carries a
  -- task, then the method of the request is one of the two that are open to guests.
  pub route_guest :
      (id : String) (request : RequestMessage L.json) (parts : List String) (m : Message L.json)
      (t : Task L.json)
      → Rpc.contains L.json request.metadata "user-key" ≡ false
      → (route L ctx self id request parts self).sent ≡ m ∷ []
      → m.body ≡ task_body t
      → contains request.method get_quest_method_list ≡ true
  unfolding route send reply
  route_guest id request [] m t key sent body = ground arith
  route_guest id request (a ∷ []) m t key sent body = ground arith
  route_guest id request (a ∷ b ∷ rest) m t key sent body = ground arith

  pub route_key :
      (id : String) (request : RequestMessage L.json) (service_name method_name : String)
      (rest : List String)
      → Rpc.contains L.json request.metadata "user-key" ≡ true
      → ctx.contacts "users" ≡ true
      → (route L ctx self id request (service_name ∷ method_name ∷ rest) self).sent
        ≡ record {
          contact = "users";
          command = "auth";
          body = task_body (task_of L ctx id request service_name method_name self.profile_key);
        }
          ∷ []
  unfolding route send
  route_key id request a b rest key known = ground arith

module _ (L : Libraries) (ctx : Context) (task : Task L.json) (s : Router) where
  -- The names that the dispatcher has put into the task, the mark that `users::auth` has put there,
  -- and the storage after the reads.
  abbrev pub named_service : String
  named_service = (storage_at "service.name" task.storage).0

  abbrev pub storage1 : Assoc String
  storage1 = (storage_at "service.name" task.storage).1

  abbrev pub named_method : String
  named_method = (storage_at "service.method" storage1).0

  abbrev pub storage2 : Assoc String
  storage2 = (storage_at "service.method" storage1).1

  abbrev pub admin_mark : String
  admin_mark = (storage_at "user.admin" storage2).0

  abbrev pub handed_on : Message L.json
  handed_on = record {
    contact = named_service;
    command = named_method;
    body = task_body (record task { storage = (storage_at "user.admin" storage2).1 });
  }

  -- What is known when `service` hands on the task.
  pub record IsPermitted : Type 0 where
    pub listed : contains named_service get_service_list ≡ true
    pub accepted : ctx.message_types named_service named_method ≡ true
    pub permitted : (admin_mark == "1" || contains task.request.method get_user_method_list) ≡ true

  -- A task that `service` hands on goes to a listed service, as a command that the service has a
  -- handler for, and its method is open to users, or it carries the mark of an administrator. The
  -- message is the task with the name of its method as command.
  pub service-IsPermitted :
      (m : Message L.json) (t : Task L.json)
      → (service L ctx task s).sent ≡ m ∷ []
      → m.body ≡ task_body t
      → IsPermitted × (m ≡ handed_on)
  unfolding service send reply
  service-IsPermitted m t sent body = elim (Bool-cases (contains named_service get_service_list)) [
    | inl a ↦ elim (Bool-cases (ctx.contacts named_service)) [
      | inl b ↦ elim (Bool-cases (ctx.message_types named_service named_method)) [
        | inl c ↦
            elim (Bool-cases
              (admin_mark == "1" || contains task.request.method get_user_method_list)) [
                | inl d ↦ (record { listed = a; accepted = c; permitted = d }, ground arith)
                | inr d ↦ absurd (ground arith)
              ]
        | inr c ↦ absurd (ground arith)
      ]
      | inr b ↦ absurd (ground arith)
    ]
    | inr a ↦ absurd (ground arith)
  ]
