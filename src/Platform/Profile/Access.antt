-- ===== src/Platform/Profile/Access.antt =====
-- Which tasks `profile::auth` lets through.
use stream_cloud.Prelude.{
  String, true, false, ◌≡◌, ◌≢◌, ◌⊎◌, ap, ◌∙◌, inl, inr, eq_iff, Option, some, List, [], ◌∷◌, arith,
  emplace, get_elem?, Bool-cases, Option-cases,
}
use stream_cloud.Api.Action.{ok, ◌>>=◌, try_catch, Result-cases}
use stream_cloud.Api.Libraries.{Libraries}
use stream_cloud.Api.Rpc.{string_at}
use stream_cloud.Api.Message.{Task, Message, Context, task_body, send, reply}
use stream_cloud.Api.Database.{query, members, set_members}
use stream_cloud.Manager.Users.{last_row}
use stream_cloud.Platform.Profile.{Profile, is_auth, select_profile, check_password, auth}

router_ne_ws : ◌≢◌ {A = String} "ws" "router"
router_ne_ws e = cc ((eq_iff "ws" "router").1 e)

module _ (L : Libraries) (s : Profile L) (profile_key : String) where
  -- The second part of the key is the password of the last row that the database has for its first
  -- part, and it has one.
  abbrev pub HasPassword : Type 0
  HasPassword =
      (name given : String) × (row : List (Option String)) × (more : List (List (Option String)))
      × (get_elem? (L.split profile_key) 0 ≡ some name)
      × (get_elem? (L.split profile_key) 1 ≡ some given)
      × (L.rows s.db select_profile (name ∷ []) ≡ ok (row ∷ more))
      × (given ≡ (last_row (row ∷ more)).1)

  -- The database has no row for the first part of the key, and the second part is empty.
  abbrev pub IsOfNobody : Type 0
  IsOfNobody =
      (name : String) × (get_elem? (L.split profile_key) 0 ≡ some name)
      × (get_elem? (L.split profile_key) 1 ≡ some "")
      × (L.rows s.db select_profile (name ∷ []) ≡ ok [])

  checked :
      (name given : String) (rows : List (List (Option String)))
      → get_elem? (L.split profile_key) 0 ≡ some name
      → get_elem? (L.split profile_key) 1 ≡ some given
      → L.rows s.db select_profile (name ∷ []) ≡ ok rows
      → given ≡ (last_row rows).1
      → HasPassword ⊎ IsOfNobody
  unfolding last_row
  checked name given [] e0 e1 e2 e3 = inr (name, e0, e1 ∙ ap some e3, e2)
  checked name given (row ∷ more) e0 e1 e2 e3 = inl (name, given, row, more, e0, e1, e2, e3)

module _ {L : Libraries} (ctx : Context) (task : Task L.json) (s : Profile L) where
  check_password_sound :
      (profile_key : String) (m : Message L.json)
      → (check_password ctx task profile_key (L.split profile_key) s).sent ≡ m ∷ []
      → m.contact ≡ "router"
      → HasPassword L s profile_key ⊎ IsOfNobody L s profile_key
  unfolding check_password ◌>>=◌ try_catch query set_members reply
  check_password_sound profile_key m sent to =
      elim (Option-cases (get_elem? (L.split profile_key) 0)) [
        | inl e ↦ absurd (ground (arith, router_ne_ws))
        | inr (name, e0) ↦ elim (Result-cases (L.rows s.db select_profile (name ∷ []))) [
          | inl (rows, e1) ↦ elim (Option-cases (get_elem? (L.split profile_key) 1)) [
            | inl e ↦ absurd (ground (arith, router_ne_ws))
            | inr (given, e2) ↦
                checked L s profile_key name given rows e0 e2 e1
                  (ground (arith, router_ne_ws, eq_iff given (last_row rows).1))
          ]
          | inr bad ↦ absurd (ground (arith, router_ne_ws))
        ]
      ]

  -- The task with the login of its profile, for the router.
  abbrev pub to_service : String → Message L.json
  to_service name = record {
    contact = "router";
    command = "service";
    body = task_body (record task { storage = emplace "profile.login" name task.storage });
  }

  check_password_message :
      (profile_key : String) (m : Message L.json)
      → (check_password ctx task profile_key (L.split profile_key) s).sent ≡ m ∷ []
      → m.contact ≡ "router"
      → (name : String) × (get_elem? (L.split profile_key) 0 ≡ some name) × (m ≡ to_service name)
  unfolding check_password ◌>>=◌ try_catch query set_members reply
  check_password_message profile_key m sent to =
      elim (Option-cases (get_elem? (L.split profile_key) 0)) [
        | inl e ↦ absurd (ground (arith, router_ne_ws))
        | inr (name, e0) ↦ (name, e0, ground (arith, router_ne_ws))
      ]

  auth-cached :
      (profile_key : String) (m : Message L.json)
      → string_at L.json task.request.metadata "profile-key" ≡ ok profile_key
      → is_auth profile_key s.members ≡ true
      → (auth ctx task s).sent ≡ m ∷ []
      → (name : String) × (get_elem? (L.split profile_key) 0 ≡ some name) × (m ≡ to_service name)
  unfolding auth ◌>>=◌ members send
  auth-cached profile_key m key known sent =
      elim (Option-cases (get_elem? (L.split profile_key) 0)) [
        | inl e ↦ absurd (ground arith)
        | inr (name, e0) ↦ (name, e0, ground arith)
      ]

  auth-other :
      (profile_key : String)
      → string_at L.json task.request.metadata "profile-key" ≡ ok profile_key
      → is_auth profile_key s.members ≡ false
      → auth ctx task s ≡ check_password ctx task profile_key (L.split profile_key) s
  unfolding auth ◌>>=◌ members
  auth-other profile_key key known = ground arith

  -- What is known when `auth` has passed the message `m` on to the router.
  pub record IsAuthentic (profile_key : String) (m : Message L.json) : Type 0 where
    pub reason :
        (is_auth profile_key s.members ≡ true)
        ⊎ HasPassword L s profile_key
        ⊎ IsOfNobody L s profile_key
    pub name : String
    pub first : get_elem? (L.split profile_key) 0 ≡ some name
    pub message : m ≡ to_service name

  -- If `profile::auth` can read the key and sends one message, to the router, then the key is cached,
  -- or its second part is the password of the last row that the database has for its first part, or
  -- the database has no row for its first part and its second part is empty; and the message
  -- is the task, with the key's first part as "profile.login" if that was not set.
  pub auth-IsAuthentic :
      (profile_key : String) (m : Message L.json)
      → string_at L.json task.request.metadata "profile-key" ≡ ok profile_key
      → (auth ctx task s).sent ≡ m ∷ []
      → m.contact ≡ "router"
      → IsAuthentic profile_key m
  auth-IsAuthentic profile_key m key sent to = elim (Bool-cases (is_auth profile_key s.members)) [
    | inl e ↦
        let (name, first, message) = auth-cached profile_key m key e sent in
        record { reason = inl e; name = name; first = first; message = message }
    | inr e ↦
        let sent' = rw (auth-other profile_key key e) at sent in
        let (name, first, message) = check_password_message profile_key m sent' to in
        record {
          reason = inr (check_password_sound profile_key m sent' to);
          name = name;
          first = first;
          message = message;
        }
  ]
