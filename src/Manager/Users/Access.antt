-- ===== src/Manager/Users/Access.antt =====
-- Which tasks `users::auth` lets through.
use stream_cloud.Prelude.{
  String, ◌||◌, true, false, ◌≡◌, ◌≢◌, ◌⊎◌, ap, ◌∙◌, inl, inr, ◌==◌, eq_iff, Option, none, some,
  List, [], ◌∷◌, arith, Assoc, emplace, assign, get_elem?, Bool-cases, Option-cases,
}
use stream_cloud.Api.Action.{ok, ◌>>=◌, try_catch, Result-cases}
use stream_cloud.Api.Libraries.{Libraries}
use stream_cloud.Api.Rpc.{string_at}
use stream_cloud.Api.Message.{Task, Message, Context, task_body, storage_at, send, reply}
use stream_cloud.Api.Database.{query, members, set_members}
use stream_cloud.Manager.Users.{
  Users, is_auth, last_row, select_user, bool_text, to_router, check_password, auth,
}

router_ne_ws : ◌≢◌ {A = String} "ws" "router"
router_ne_ws e = cc ((eq_iff "ws" "router").1 e)

module _ (L : Libraries) (s : Users L) (user_key : String) where
  -- The second part of the key is the password of the last row that the database has for its first
  -- part, and it has one.
  abbrev pub HasPassword : Type 0
  HasPassword =
      (name given : String) × (row : List (Option String)) × (more : List (List (Option String)))
      × (get_elem? (L.split user_key) 0 ≡ some name)
      × (get_elem? (L.split user_key) 1 ≡ some given)
      × (L.rows s.db select_user (name ∷ []) ≡ ok (row ∷ more))
      × (given ≡ (last_row (row ∷ more)).1)

  -- The database has no row for the first part of the key, and the second part is empty.
  abbrev pub IsOfNobody : Type 0
  IsOfNobody =
      (name : String) × (get_elem? (L.split user_key) 0 ≡ some name)
      × (get_elem? (L.split user_key) 1 ≡ some "")
      × (L.rows s.db select_user (name ∷ []) ≡ ok [])

  checked :
      (name given : String) (rows : List (List (Option String)))
      → get_elem? (L.split user_key) 0 ≡ some name
      → get_elem? (L.split user_key) 1 ≡ some given
      → L.rows s.db select_user (name ∷ []) ≡ ok rows
      → given ≡ (last_row rows).1
      → HasPassword ⊎ IsOfNobody
  unfolding last_row
  checked name given [] e0 e1 e2 e3 = inr (name, e0, e1 ∙ ap some e3, e2)
  checked name given (row ∷ more) e0 e1 e2 e3 = inl (name, given, row, more, e0, e1, e2, e3)

module _ {L : Libraries} (ctx : Context) (task : Task L.json) (s : Users L) where
  check_password_sound :
      (storage : Assoc String) (user_key : String) (m : Message L.json)
      → (check_password ctx task storage user_key (L.split user_key) s).sent ≡ m ∷ []
      → m.contact ≡ "router"
      → HasPassword L s user_key ⊎ IsOfNobody L s user_key
  unfolding check_password ◌>>=◌ try_catch query set_members reply
  check_password_sound storage user_key m sent to =
      elim (Option-cases (get_elem? (L.split user_key) 0)) [
        | inl e ↦ absurd (ground (arith, router_ne_ws))
        | inr (name, e0) ↦ elim (Result-cases (L.rows s.db select_user (name ∷ []))) [
          | inl (rows, e1) ↦ elim (Option-cases (get_elem? (L.split user_key) 1)) [
            | inl e ↦ absurd (ground (arith, router_ne_ws))
            | inr (given, e2) ↦
                checked L s user_key name given rows e0 e2 e1
                  (ground (arith, router_ne_ws, eq_iff given (last_row rows).1))
          ]
          | inr bad ↦ absurd (ground (arith, router_ne_ws))
        ]
      ]

  -- The storage of the task with the mark of an administrator.
  abbrev pub granted_admin : String → Assoc String
  granted_admin user_key =
      let (profile_key, storage0) = storage_at "profile.key" task.storage in
      assign "user.admin" (bool_text (profile_key == user_key)) storage0

  abbrev pub to_service : Assoc String → Message L.json
  to_service storage = record {
    contact = "router";
    command = "service";
    body = task_body (record task { storage = storage });
  }

  check_password_storage :
      (storage : Assoc String) (user_key : String) (m : Message L.json)
      → (check_password ctx task storage user_key (L.split user_key) s).sent ≡ m ∷ []
      → m.contact ≡ "router"
      → (name : String) × (get_elem? (L.split user_key) 0 ≡ some name)
        × (m ≡ to_service (emplace "user.login" name storage))
  unfolding check_password ◌>>=◌ try_catch query set_members reply
  check_password_storage storage user_key m sent to =
      elim (Option-cases (get_elem? (L.split user_key) 0)) [
        | inl e ↦ absurd (ground (arith, router_ne_ws))
        | inr (name, e0) ↦ (name, e0, ground (arith, router_ne_ws))
      ]

  -- How `auth` goes on once it has read the key.
  pub auth-cached :
      (user_key name : String)
      → string_at L.json task.request.metadata "user-key" ≡ ok user_key
      → get_elem? (L.split user_key) 0 ≡ some name
      → (is_auth user_key s.members || (storage_at "profile.key" task.storage).0 == user_key) ≡ true
      → auth ctx task s ≡ to_router ctx task (granted_admin user_key) name s
  unfolding auth ◌>>=◌ members
  auth-cached user_key name key first granted = ground arith

  pub auth-other :
      (user_key : String)
      → string_at L.json task.request.metadata "user-key" ≡ ok user_key
      → (is_auth user_key s.members || (storage_at "profile.key" task.storage).0 == user_key)
        ≡ false
      → auth ctx task s
        ≡ check_password ctx task (granted_admin user_key) user_key (L.split user_key) s
  unfolding auth ◌>>=◌ members
  auth-other user_key key granted = ground arith

  auth-cached_undefined :
      (user_key : String)
      → string_at L.json task.request.metadata "user-key" ≡ ok user_key
      → get_elem? (L.split user_key) 0 ≡ none
      → (is_auth user_key s.members || (storage_at "profile.key" task.storage).0 == user_key) ≡ true
      → (auth ctx task s).sent ≡ []
  unfolding auth ◌>>=◌ members
  auth-cached_undefined user_key key first granted = ground arith

  to_router_sent :
      (storage : Assoc String) (name : String) (m : Message L.json)
      → (to_router ctx task storage name s).sent ≡ m ∷ []
      → m ≡ to_service (emplace "user.login" name storage)
  unfolding send
  to_router_sent storage name m e = ground arith

  -- What is known when `auth` has passed the message `m` on to the router.
  pub record IsGranted (user_key : String) (m : Message L.json) : Type 0 where
    pub reason :
        (is_auth user_key s.members ≡ true)
        ⊎ ((storage_at "profile.key" task.storage).0 ≡ user_key)
        ⊎ HasPassword L s user_key
        ⊎ IsOfNobody L s user_key
    pub name : String
    pub first : get_elem? (L.split user_key) 0 ≡ some name
    pub message : m ≡ to_service (emplace "user.login" name (granted_admin user_key))

  or_reason :
      (user_key : String)
      → (is_auth user_key s.members || (storage_at "profile.key" task.storage).0 == user_key) ≡ true
      → (is_auth user_key s.members ≡ true)
        ⊎ ((storage_at "profile.key" task.storage).0 ≡ user_key)
        ⊎ HasPassword L s user_key
        ⊎ IsOfNobody L s user_key
  or_reason user_key h = elim (Bool-cases (is_auth user_key s.members)) [
    | inl e ↦ inl e
    | inr e ↦ inr (inl ((eq_iff _ user_key).0 (rw e at h)))
  ]

  -- If `auth` can read the key and sends one message, to the router, then the key is cached, or
  -- it is the profile's own key, or its second part is the password of the last row that the database
  -- has for its first part, or the database has no row for its first part and its second part is
  -- empty; and the message is the task, with the key's first part as "user.login" if
  -- that was not set, and with "user.admin" set to "1" if the key is the profile's own, to "0"
  -- if not.
  pub auth-IsGranted :
      (user_key : String) (m : Message L.json)
      → string_at L.json task.request.metadata "user-key" ≡ ok user_key
      → (auth ctx task s).sent ≡ m ∷ []
      → m.contact ≡ "router"
      → IsGranted user_key m
  auth-IsGranted user_key m key sent to =
      elim (Bool-cases
        (is_auth user_key s.members || (storage_at "profile.key" task.storage).0 == user_key)) [
          | inl yes_ ↦ elim (Option-cases (get_elem? (L.split user_key) 0)) [
            | inl e ↦ absurd (cc (auth-cached_undefined user_key key e yes_))
            | inr (name, e) ↦ record {
              reason = or_reason user_key yes_;
              name = name;
              first = e;
              message =
                  to_router_sent (granted_admin user_key) name m
                    (rw (← auth-cached user_key name key e yes_) sent);
            }
          ]
          | inr no_ ↦
              let sent' = rw (auth-other user_key key no_) at sent in
              let (name, first, message) =
                check_password_storage (granted_admin user_key) user_key m sent' to in
              record {
                reason =
                    inr (inr (check_password_sound (granted_admin user_key) user_key m sent' to));
                name = name;
                first = first;
                message = message;
              }
        ]
