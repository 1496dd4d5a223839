-- ===== src/Platform/Managers/Relay.antt =====
-- Where the requests to a manager and its responses go.
use stream_cloud.Prelude.{
  String, ℕ, suc, true, ◌≡◌, ◌≢◌, eq_iff, eq_refl, Option, none, some, List, [], ◌∷◌, ◌++◌, arith,
  lookup, lookup-emplace, lookup-erase, or_else, Option-cases, inl, inr, Assoc,
}
use stream_cloud.Api.Action.{ok, ◌>>=◌, try_catch}
use stream_cloud.Api.Libraries.{Libraries}
use stream_cloud.Api.Rpc.{param_string, string_at, serialize_request}
use stream_cloud.Api.Message.{
  Task, Message, Context, text_body, storage_at, send, reply, guarded, guarded_after, success,
  failure, reply_message, written,
}
use stream_cloud.Api.Database.{execute, query_number, set_members, members}
use stream_cloud.Platform.Managers.{
  Managers, is_reg_manager, add_reg_manager, remove_reg_manager, get_manager_transport_id,
  trusted_url, delete_manager, count_managers, disconnect_message, with_transport, connect, delete,
  disconnect, request,
}

lookup-add_reg_manager :
    (key id : String) (reg : Assoc String)
    → lookup key (add_reg_manager key id reg) ≡ some (or_else id (lookup key reg))
unfolding add_reg_manager
lookup-add_reg_manager key id reg = ground (arith, lookup-emplace key key id reg, eq_refl key)

lookup-remove_reg_manager :
    (key : String) (reg : Assoc String) → lookup key (remove_reg_manager key reg) ≡ none
unfolding remove_reg_manager
lookup-remove_reg_manager key reg = ground (arith, lookup-erase key key reg, eq_refl key)

-- The message by which a registered manager is told to disconnect.
abbrev pub told : (L : Libraries) → Task L.json → Option String → List (Message L.json)
told L task none = []
told L task (some id) = written L.json id (disconnect_message L task) ∷ []

module _ {L : Libraries} (ctx : Context) where
  pub request_registered :
      (task : Task L.json) (s : Managers L) (key id : String)
      → string_at L.json task.request.metadata "manager-key" ≡ ok key
      → lookup key s.members ≡ some id
      → ctx.contacts "ws" ≡ true
      → (request ctx task s).sent
        ≡ written L.json id (serialize_request L.json (with_transport L task)) ∷ []
  unfolding request is_reg_manager get_manager_transport_id ◌>>=◌ members send
  request_registered task s key id given found known = ground arith

  request_unregistered :
      (task : Task L.json) (s : Managers L) (key : String)
      → string_at L.json task.request.metadata "manager-key" ≡ ok key
      → lookup key s.members ≡ none
      → ctx.contacts "ws" ≡ true
      → (request ctx task s).sent ≡ reply_message task (failure task "manager not connection") ∷ []
  unfolding request is_reg_manager ◌>>=◌ members send reply
  request_unregistered task s key given found known = ground arith

  connect-members :
      (task : Task L.json) (s : Managers L) (key : String) (n : ℕ)
      → param_string L.json task.request.params "key" ≡ ok key
      → L.number s.db count_managers (key ∷ (storage_at "profile.login" task.storage).0 ∷ [])
        ≡ ok (suc n)
      → (connect ctx task s).state.members ≡ add_reg_manager key task.transport_id s.members
  unfolding connect ◌>>=◌ guarded try_catch query_number set_members reply
  connect-members task s key n given found = ground arith

  delete_sent :
      (task : Task L.json) (s : Managers L) (key : String) {db : L.Db}
      → param_string L.json task.request.params "key" ≡ ok key
      → key ≢ ""
      → L.run s.db delete_manager (key ∷ (storage_at "profile.login" task.storage).0 ∷ []) ≡ ok db
      → ctx.contacts "http" ≡ true
      → ctx.contacts "ws" ≡ true
      → ((delete ctx task s).sent
          ≡ record {
            contact = "http";
            command = "remove_trusted_url";
            body = text_body (trusted_url (storage_at "profile.login" task.storage).0 key);
          }
              ∷ told L task (lookup key s.members)
            ++ (reply_message task (success task (L.of_bool true)) ∷ []))
        × ((delete ctx task s).state.members ≡ remove_reg_manager key s.members)
  unfolding delete is_reg_manager get_manager_transport_id ◌>>=◌ guarded guarded_after try_catch
      execute members set_members send reply
  delete_sent task s key given nonempty run http ws = elim (Option-cases (lookup key s.members)) [
    | inl e ↦ ground (arith, eq_iff key "")
    | inr (id, e) ↦ ground (arith, eq_iff key "")
  ]

  disconnect-members :
      (task : Task L.json) (s : Managers L) (key : String)
      → param_string L.json task.request.params "key" ≡ ok key
      → (disconnect ctx task s).state.members ≡ remove_reg_manager key s.members
  unfolding disconnect ◌>>=◌ try_catch set_members
  disconnect-members task s key given = ground arith

  -- After a manager of the database has connected, a request to it goes to the connection that it
  -- came from, with the client's connection in its metadata; but if the key was registered before,
  -- the request goes to the connection that was registered first.
  pub request-connect_manager :
      (task1 task2 : Task L.json) (s : Managers L) (key : String) (n : ℕ)
      → param_string L.json task1.request.params "key" ≡ ok key
      → L.number s.db count_managers (key ∷ (storage_at "profile.login" task1.storage).0 ∷ [])
        ≡ ok (suc n)
      → string_at L.json task2.request.metadata "manager-key" ≡ ok key
      → ctx.contacts "ws" ≡ true
      → (request ctx task2 (connect ctx task1 s).state).sent
        ≡ written L.json
            (or_else task1.transport_id (lookup key s.members))
            (serialize_request L.json (with_transport L task2))
          ∷ []
  request-connect_manager task1 task2 s key n given found asked known =
      request_registered task2 (connect ctx task1 s).state key _ asked
        (rw (connect-members task1 s key n given found)
          (lookup-add_reg_manager key task1.transport_id s.members))
        known

  -- A profile that is not the owner of a manager deletes no row of the database, but when the
  -- statement does not fail, the manager with that key is told to disconnect, the profile is answered
  -- with success, and every later request to the manager is answered with an error.
  pub request-delete :
      (task1 task2 : Task L.json) (s : Managers L) (key : String) {db : L.Db}
      → param_string L.json task1.request.params "key" ≡ ok key
      → key ≢ ""
      → L.run s.db delete_manager (key ∷ (storage_at "profile.login" task1.storage).0 ∷ []) ≡ ok db
      → string_at L.json task2.request.metadata "manager-key" ≡ ok key
      → ctx.contacts "http" ≡ true
      → ctx.contacts "ws" ≡ true
      → ((delete ctx task1 s).sent
          ≡ record {
            contact = "http";
            command = "remove_trusted_url";
            body = text_body (trusted_url (storage_at "profile.login" task1.storage).0 key);
          }
              ∷ told L task1 (lookup key s.members)
            ++ (reply_message task1 (success task1 (L.of_bool true)) ∷ []))
        × ((request ctx task2 (delete ctx task1 s).state).sent
            ≡ reply_message task2 (failure task2 "manager not connection") ∷ [])
  request-delete task1 task2 s key given nonempty run asked http ws =
      let d = delete_sent task1 s key given nonempty run http ws in
      (
        d.0,
        request_unregistered task2 (delete ctx task1 s).state key asked
            (rw d.1 (lookup-remove_reg_manager key s.members)) ws,
      )

  -- After a manager has disconnected, whichever profile asked for it, a request to it is answered
  -- with an error.
  pub request-disconnect_manager :
      (task1 task2 : Task L.json) (s : Managers L) (key : String)
      → param_string L.json task1.request.params "key" ≡ ok key
      → string_at L.json task2.request.metadata "manager-key" ≡ ok key
      → ctx.contacts "ws" ≡ true
      → (request ctx task2 (disconnect ctx task1 s).state).sent
        ≡ reply_message task2 (failure task2 "manager not connection") ∷ []
  request-disconnect_manager task1 task2 s key gone asked known =
      request_unregistered task2 (disconnect ctx task1 s).state key asked
        (rw (disconnect-members task1 s key gone) (lookup-remove_reg_manager key s.members)) known
