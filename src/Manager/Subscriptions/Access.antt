-- ===== src/Manager/Subscriptions/Access.antt =====
-- Who is subscribed to a device after `on` and `off`.
use stream_cloud.Prelude.{
  String, Bool, true, false, not, ◌≡◌, refl, eq_iff, ◌==◌, ◌&&◌, ◌||◌, Option, none, some, List, [],
  ◌∷◌, arith, is_nil, lookup, lookup-emplace, lookup-assign, contains, contains-set_emplace,
  contains-set_erase, Bool-cases, Option-cases, inl, inr, if◌then◌else◌, set_emplace, set_erase,
}
use stream_cloud.Api.Action.{ok, ◌>>=◌, try_catch}
use stream_cloud.Api.Libraries.{Libraries}
use stream_cloud.Api.Rpc.{param_string, get_array, at_key}
use stream_cloud.Api.Message.{Task, Context, storage_at, guarded, reply}
use stream_cloud.Api.Database.{query, set_members, members}
use stream_cloud.Manager.GroupKeys.{strings_of, accumulate}
use stream_cloud.Manager.Subscriptions.{
  Registry, Subscriptions, is_reg_device, get_device_subscribes, add_reg_device, add_subscriber,
  remove_subscriber, select_user_groups, on, off,
}

-- Whether the transport `id` is subscribed to the device `key`.
unfoldable pub is_subscribed : String → String → Registry → Bool
unfolding lookup contains
is_subscribed key id reg = elim (lookup key reg) [ none ↦ false | some ids ↦ contains id ids ]

lookup-add_reg_device :
    (key : String) (reg : Registry)
    → lookup key reg ≡ none
    → lookup key (add_reg_device key reg) ≡ some []
unfolding add_reg_device
lookup-add_reg_device key reg h = ground (arith, lookup-emplace key key [] reg, eq_iff key key)

is_subscribed-add_reg_device :
    (key k id : String) (reg : Registry)
    → lookup key reg ≡ none
    → is_subscribed k id (add_reg_device key reg) ≡ is_subscribed k id reg
unfolding is_subscribed add_reg_device contains
is_subscribed-add_reg_device key k id reg h =
    ground (arith, lookup-emplace key k [] reg, eq_iff key k)

is_subscribed-add_subscriber :
    (key j k id : String) (ids : List String) (reg : Registry)
    → lookup key reg ≡ some ids
    → is_subscribed k id (add_subscriber key j reg)
      ≡ (is_subscribed k id reg || (key == k && j == id))
unfolding is_subscribed add_subscriber
is_subscribed-add_subscriber key j k id ids reg h = ground (
  arith,
  lookup-assign key k (set_emplace j ids) reg,
  contains-set_emplace j id ids,
  eq_iff key k,
)

is_subscribed-remove_subscriber :
    (key j k id : String) (ids : List String) (reg : Registry)
    → lookup key reg ≡ some ids
    → is_subscribed k id (remove_subscriber key j reg)
      ≡ (is_subscribed k id reg && not (key == k && j == id))
unfolding is_subscribed remove_subscriber
is_subscribed-remove_subscriber key j k id ids reg h =
    ground
      (arith, lookup-assign key k (set_erase j ids) reg, contains-set_erase j id ids, eq_iff key k)

module _ {L : Libraries} (ctx : Context) (task : Task L.json) (s : Subscriptions L)
    (key : String) where
  off-members :
      param_string L.json task.request.params "device-key" ≡ ok key
      → (off ctx task s).state.members ≡ (
          if is_subscribed key task.transport_id s.members
          then remove_subscriber key task.transport_id s.members
          else s.members)
  unfolding off is_subscribed ◌>>=◌ members set_members is_reg_device get_device_subscribes reply
  off-members given = elim (Option-cases (lookup key s.members)) [
    | inl e ↦ ground arith
    | inr (ids, e) ↦ ground arith
  ]

  -- `off` takes the connection that it came from out of the subscribers of the device, and changes
  -- no other subscription; so it does when the device or the subscription is unknown.
  pub off-is_subscribed :
      (k id : String)
      → param_string L.json task.request.params "device-key" ≡ ok key
      → is_subscribed k id (off ctx task s).state.members
        ≡ (is_subscribed k id s.members && not (key == k && task.transport_id == id))
  unfolding is_subscribed
  off-is_subscribed k id given =
      rw (off-members given) (elim (Option-cases (lookup key s.members)) [
        | inl e ↦ ground (arith, eq_iff key k)
        | inr (ids, e) ↦ ground (
          arith,
          is_subscribed-remove_subscriber key task.transport_id k id ids s.members e,
          eq_iff key k,
          eq_iff task.transport_id id,
        )
      ])

  -- What `on` reads before it decides: the groups of the device, and those of the user among them.
  pub record IsAsking (values : List L.Value) (keys : List String)
      (rows : List (List (Option String))) : Type 0 where
    pub given_groups :
        get_array L.json (at_key L.json task.request.metadata "device-groups").0 ≡ ok values
    pub given_key : param_string L.json task.request.params "device-key" ≡ ok key
    pub some_groups : is_nil values ≡ false
    pub read_keys : strings_of L.json values ≡ ok keys
    pub found :
        L.rows s.db select_user_groups
          ((storage_at "user.login" task.storage).0 ∷ accumulate keys ∷ [])
        ≡ ok rows

  -- whether `on` denies the subscription
  abbrev pub is_denied : List (List (Option String)) → Bool
  is_denied rows =
      is_nil rows && (storage_at "user.admin" (storage_at "user.login" task.storage).1).0 == "0"

  on_denied :
      (values : List L.Value) (keys : List String) (rows : List (List (Option String)))
      → IsAsking values keys rows
      → is_denied rows ≡ true
      → (on ctx task s).state.members ≡ s.members
  unfolding on ◌>>=◌ guarded try_catch query members set_members reply
  on_denied values keys rows a d = ground arith

  abbrev ensured : Registry
  ensured = if is_reg_device key s.members then s.members else add_reg_device key s.members

  on_granted :
      (values : List L.Value) (keys ids : List String) (rows : List (List (Option String)))
      → IsAsking values keys rows
      → is_denied rows ≡ false
      → lookup key ensured ≡ some ids
      → (on ctx task s).state.members ≡ (
          if contains task.transport_id ids
          then ensured
          else add_subscriber key task.transport_id ensured)
  unfolding on ◌>>=◌ guarded try_catch query members set_members reply get_device_subscribes
  on_granted values keys ids rows a d e = ground arith

  ensured_new : lookup key s.members ≡ none → ensured ≡ add_reg_device key s.members
  unfolding is_reg_device
  ensured_new e = rw e refl

  ensured_old : (ids : List String) → lookup key s.members ≡ some ids → ensured ≡ s.members
  unfolding is_reg_device
  ensured_old ids e = rw e refl

  lookup-ensured :
      (ids : List String) × (lookup key ensured ≡ some ids)
      × ((k id : String) → is_subscribed k id ensured ≡ is_subscribed k id s.members)
  lookup-ensured = elim (Option-cases (lookup key s.members)) [
    | inl e ↦ (
      [],
      rw (ensured_new e) (lookup-add_reg_device key s.members e),
      λ k id. rw (ensured_new e) (is_subscribed-add_reg_device key k id s.members e),
    )
    | inr (ids, e) ↦ (ids, rw (ensured_old ids e) e, λ k id. rw (ensured_old ids e) refl)
  ]

  -- When the request names a device and at least one group of it, and the database answers, `on`
  -- adds the connection to the subscribers of the device, unless the answer has no row and the
  -- mark of the user is "0"; then it changes nothing. It changes no other subscription.
  pub on-is_subscribed :
      (values : List L.Value) (keys : List String) (rows : List (List (Option String)))
      (k id : String)
      → IsAsking values keys rows
      → is_subscribed k id (on ctx task s).state.members ≡ (
          is_subscribed k id s.members
          || (not (is_denied rows) && key == k && task.transport_id == id))
  unfolding is_subscribed
  on-is_subscribed values keys rows k id a = elim (Bool-cases (is_denied rows)) [
    | inl d ↦ rw (on_denied values keys rows a d) (ground arith)
    | inr d ↦
        let (ids, e, same) = lookup-ensured in
        rw (on_granted values keys ids rows a d e)
          (elim (Bool-cases (contains task.transport_id ids)) [
            | inl c ↦ ground (arith, same k id, eq_iff key k, eq_iff task.transport_id id)
            | inr c ↦ ground (
              arith,
              same k id,
              is_subscribed-add_subscriber key task.transport_id k id ids ensured e,
              eq_iff key k,
            )
          ])
  ]
