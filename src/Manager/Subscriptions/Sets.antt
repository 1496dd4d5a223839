-- ===== src/Manager/Subscriptions/Sets.antt =====
-- The subscribers of each device stand in its set once, whatever the handlers do.
use stream_cloud.Prelude.{
  String, ◌≡◌, some, List, [], arith, All, lookup, lookup-emplace, lookup-assign, assign,
  set_emplace, set_erase, IsSetLike, set_emplace-IsSetLike, set_erase-IsSetLike, if◌then◌else◌,
  Bool-cases, inl, inr, Option-cases,
}
use stream_cloud.Api.Libraries.{Libraries}
use stream_cloud.Api.Message.{Task, Context}
use stream_cloud.Api.Effects.{Keeps, keeps_rules}
use stream_cloud.Api.Database.{OfMembers, keeps_database}
use stream_cloud.Api.Answers.{keeps_messages}
use stream_cloud.Manager.Subscriptions.{
  Registry, is_reg_device, add_reg_device, add_subscriber, remove_subscriber, add, delete, list,
  devices, groups, on, off, subscription_handlers,
}

pub record HasSets (reg : Registry) : Type 0 where
  pub at : (k : String) (ids : List String) → lookup k reg ≡ some ids → IsSetLike ids

add_reg_device-HasSets :
    (key : String) (reg : Registry) → HasSets reg → HasSets (add_reg_device key reg)
unfolding add_reg_device
add_reg_device-HasSets key reg h = record {
  at = λ k ids e. ground (arith, lookup-emplace key k [] reg, h.at k ids);
}

ensure-HasSets :
    (key : String) (reg : Registry)
    → HasSets reg
    → HasSets (if is_reg_device key reg then reg else add_reg_device key reg)
ensure-HasSets key reg h = elim (Bool-cases (is_reg_device key reg)) [
  | inl e ↦ rw e h
  | inr e ↦ rw e (add_reg_device-HasSets key reg h)
]

assign-HasSets :
    (key : String) (new : List String) (reg : Registry)
    → HasSets reg
    → IsSetLike new
    → HasSets (assign key new reg)
assign-HasSets key new reg h k = record {
  at = λ j ids e. ground (arith, lookup-assign key j new reg, h.at j ids);
}

add_subscriber-HasSets :
    (key id : String) (reg : Registry) → HasSets reg → HasSets (add_subscriber key id reg)
unfolding add_subscriber
add_subscriber-HasSets key id reg h = elim (Option-cases (lookup key reg)) [
  | inl e ↦ rw (e, add_subscriber) h
  | inr (ids, e) ↦
      rw (e, add_subscriber)
        (assign-HasSets key (set_emplace id ids) reg h
          (set_emplace-IsSetLike id ids (h.at key ids e)))
]

remove_subscriber-HasSets :
    (key id : String) (reg : Registry) → HasSets reg → HasSets (remove_subscriber key id reg)
unfolding remove_subscriber
remove_subscriber-HasSets key id reg h = elim (Option-cases (lookup key reg)) [
  | inl e ↦ rw (e, remove_subscriber) h
  | inr (ids, e) ↦
      rw (e, remove_subscriber)
        (assign-HasSets key (set_erase id ids) reg h (set_erase-IsSetLike id ids (h.at key ids e)))
]

ruleset set_rules = (
  keeps_rules, keeps_database, keeps_messages, ensure-HasSets, add_subscriber-HasSets,
  remove_subscriber-HasSets,
)

module _ {L : Libraries} (ctx : Context) (task : Task L.json) where
  Keeps-add : Keeps (OfMembers {L = L} HasSets) (add ctx task)
  unfolding add
  Keeps-add = search set_rules depth 16

  Keeps-delete : Keeps (OfMembers {L = L} HasSets) (delete ctx task)
  unfolding delete
  Keeps-delete = search set_rules depth 16

  Keeps-list : Keeps (OfMembers {L = L} HasSets) (list ctx task)
  unfolding list
  Keeps-list = search set_rules depth 16

  Keeps-devices : Keeps (OfMembers {L = L} HasSets) (devices ctx task)
  unfolding devices
  Keeps-devices = search set_rules depth 16

  Keeps-groups : Keeps (OfMembers {L = L} HasSets) (groups ctx task)
  unfolding groups
  Keeps-groups = search set_rules depth 16

  Keeps-on : Keeps (OfMembers {L = L} HasSets) (on ctx task)
  unfolding on
  Keeps-on = search set_rules depth 16

  Keeps-off : Keeps (OfMembers {L = L} HasSets) (off ctx task)
  unfolding off
  Keeps-off = search set_rules depth 16

  -- Every handler of subscriptions.cpp that takes a task keeps each device's subscribers a set: no
  -- connection stands in it twice.
  pub subscription_handlers-HasSets :
      All (λ h. Keeps (OfMembers {L = L} HasSets) h.1) (subscription_handlers ctx task)
  subscription_handlers-HasSets = (
    Keeps-add,
    (Keeps-delete, (Keeps-list, (Keeps-devices, (Keeps-groups, (Keeps-on, (Keeps-off, tt)))))),
  )
