-- ===== src/Platform/Managers/Names.antt =====
-- The bounds of what the services of "http" are asked to trust.
use Prim.Native.String
use text.Mathlib.TextPositions.{len-append}
use stream_cloud.Prelude.{
  String, ◌+◌, ◌*◌, ◌≤◌, true, ◌≡◌, ◌∷◌, [], arith, Bool-cases, inl, inr, List, ◌≢◌, eq_iff,
}
use stream_cloud.Api.Action.{ok, ◌>>=◌, try_catch, Result-cases}
use stream_cloud.Api.Libraries.{Libraries}
use stream_cloud.Api.Rpc.{param_string}
use stream_cloud.Api.Message.{
  Task, Message, Context, text_body, storage_at, send, reply, guarded, guarded_after,
}
use stream_cloud.Api.Database.{execute}
use stream_cloud.Platform.Managers.{
  Managers, add, is_short, manager_key_of, trusted_url, insert_manager,
}

-- What is asked to be trusted.
abbrev pub trusted : (L : Libraries) → Task L.json → String → Message L.json
trusted L task name =
    let profile_login = (storage_at "profile.login" task.storage).0 in
    record {
      contact = "http";
      command = "add_trusted_url";
      body = text_body (trusted_url profile_login (manager_key_of profile_login name));
    }

len-trusted_url :
    (profile_login name : String)
    → String.len (trusted_url profile_login (manager_key_of profile_login name))
      ≡ 2 * String.len profile_login + String.len name + 2
len-trusted_url p name =
    rw
      (
        len-append (String.◌++◌ p "/") (String.◌++◌ (String.◌++◌ p ".") name),
        len-append p "/",
        len-append (String.◌++◌ p ".") name,
        len-append p ".",
      )
      (omega arith)

http_ne_ws : ◌≢◌ {A = String} "ws" "http"
http_ne_ws e = cc ((eq_iff "ws" "http").1 e)

is_short-Bounded : (name : String) → is_short name ≡ true → (name ≢ "") × (String.len name ≤ 6)
is_short-Bounded name e = (ground (arith, eq_iff name ""), ground arith)

module _ {L : Libraries} (ctx : Context) (task : Task L.json) (s : Managers L) where
  add_short :
      (name : String) (m : Message L.json) (rest : List (Message L.json))
      → param_string L.json task.request.params "name" ≡ ok name
      → (add ctx task s).sent ≡ m ∷ rest
      → m.contact ≡ "http"
      → (is_short name ≡ true) × (m ≡ trusted L task name)
  unfolding add ◌>>=◌ guarded guarded_after try_catch execute send reply
  add_short name m rest given sent to = elim (Bool-cases (is_short name)) [
    | inl e ↦
        let profile_login = (storage_at "profile.login" task.storage).0 in
        elim (Result-cases (
          L.run s.db insert_manager
            (profile_login ∷ name ∷ manager_key_of profile_login name ∷ []))) [
              | inl r ↦ (e, ground (arith, http_ne_ws))
              | inr bad ↦ absurd (ground (arith, http_ne_ws))
            ]
    | inr e ↦ absurd (ground (arith, http_ne_ws))
  ]

  -- If `add` asks that an address be trusted, then the name that it was given is not empty and has at
  -- most six bytes, and the address is no longer than twice the login of the profile and eight.
  pub add_bounds :
      (name : String) (m : Message L.json) (rest : List (Message L.json))
      → param_string L.json task.request.params "name" ≡ ok name
      → (add ctx task s).sent ≡ m ∷ rest
      → m.contact ≡ "http"
      → (name ≢ "")
        × (m ≡ trusted L task name)
        × (String.len (
              trusted_url
                (storage_at "profile.login" task.storage).0
                (manager_key_of (storage_at "profile.login" task.storage).0 name))
            ≤ 2 * String.len (storage_at "profile.login" task.storage).0 + 8)
  add_bounds name m rest given sent to =
      let (short, e) = add_short name m rest given sent to in
      let (nonempty, small) = is_short-Bounded name short in
      (nonempty, e, rw len-trusted_url (omega arith))
