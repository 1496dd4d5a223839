-- ===== src/Manager/Devices/Registration.antt =====
-- The three maps of the registered devices have the same keys.
use stream_cloud.Prelude.{String, ◌≡◌, List, arith, All, has_key, lookup, lookup-erase, emplace}
use stream_cloud.Api.Libraries.{Libraries}
use stream_cloud.Api.Message.{Task, Context}
use stream_cloud.Api.Effects.{Keeps, keeps_rules}
use stream_cloud.Api.Database.{OfMembers, keeps_database}
use stream_cloud.Api.Answers.{keeps_messages}
use stream_cloud.Manager.Devices.{
  Registry, add_reg_device, remove_reg_device, add, delete, list, detail, control, connect,
  disconnect, request, subscribe, unsubscribe, device_handlers,
}

pub record IsAligned (reg : Registry) : Type 0 where
  pub actions : (k : String) → has_key k reg.device_actions_reg ≡ has_key k reg.devices_reg
  pub variables : (k : String) → has_key k reg.device_variables_reg ≡ has_key k reg.devices_reg

add_reg_device-IsAligned :
    (key id : String) (actions variables : List String) (reg : Registry)
    → IsAligned reg
    → IsAligned (add_reg_device key id actions variables reg)
unfolding add_reg_device emplace lookup
add_reg_device-IsAligned key id actions variables reg h = record {
  actions = λ k. ground (arith, h.actions k, h.actions key);
  variables = λ k. ground (arith, h.variables k, h.variables key);
}

remove_reg_device-IsAligned :
    (key : String) (reg : Registry) → IsAligned reg → IsAligned (remove_reg_device key reg)
unfolding remove_reg_device
remove_reg_device-IsAligned key reg h = record {
  actions = λ k. ground (
    arith,
    lookup-erase key k reg.device_actions_reg,
    lookup-erase key k reg.devices_reg,
    h.actions k,
  );
  variables = λ k. ground (
    arith,
    lookup-erase key k reg.device_variables_reg,
    lookup-erase key k reg.devices_reg,
    h.variables k,
  );
}

ruleset aligned_rules = (
  keeps_rules, keeps_database, keeps_messages, add_reg_device-IsAligned,
  remove_reg_device-IsAligned,
)

module _ {L : Libraries} (ctx : Context) (task : Task L.json) where
  Keeps-add : Keeps (OfMembers {L = L} IsAligned) (add ctx task)
  unfolding add
  Keeps-add = search aligned_rules depth 14

  Keeps-delete : Keeps (OfMembers {L = L} IsAligned) (delete ctx task)
  unfolding delete
  Keeps-delete = search aligned_rules depth 14

  Keeps-list : Keeps (OfMembers {L = L} IsAligned) (list ctx task)
  unfolding list
  Keeps-list = search aligned_rules depth 14

  Keeps-detail : Keeps (OfMembers {L = L} IsAligned) (detail ctx task)
  unfolding detail
  Keeps-detail = search aligned_rules depth 14

  Keeps-control : Keeps (OfMembers {L = L} IsAligned) (control ctx task)
  unfolding control
  Keeps-control = search aligned_rules depth 14

  Keeps-connect : Keeps (OfMembers {L = L} IsAligned) (connect ctx task)
  unfolding connect
  Keeps-connect = search aligned_rules depth 14

  Keeps-disconnect : Keeps (OfMembers {L = L} IsAligned) (disconnect ctx task)
  unfolding disconnect
  Keeps-disconnect = search aligned_rules depth 14

  Keeps-request : Keeps (OfMembers {L = L} IsAligned) (request ctx task)
  unfolding request
  Keeps-request = search aligned_rules depth 14

  Keeps-subscribe : Keeps (OfMembers {L = L} IsAligned) (subscribe ctx task)
  unfolding subscribe
  Keeps-subscribe = search aligned_rules depth 14

  Keeps-unsubscribe : Keeps (OfMembers {L = L} IsAligned) (unsubscribe ctx task)
  unfolding unsubscribe
  Keeps-unsubscribe = search aligned_rules depth 14

  -- Every handler of devices.cpp that takes a task keeps the keys of the three maps equal, whether it
  -- ends normally or throws.
  pub device_handlers-IsAligned :
      All (λ h. Keeps (OfMembers {L = L} IsAligned) h.1) (device_handlers ctx task)
  device_handlers-IsAligned = (
    Keeps-add,
    (
      Keeps-delete,
      (
        Keeps-list,
        (
          Keeps-detail,
          (
            Keeps-control,
            (
              Keeps-connect,
              (Keeps-disconnect, (Keeps-request, (Keeps-subscribe, (Keeps-unsubscribe, tt)))),
            ),
          ),
        ),
      ),
    ),
  )
