-- ===== src/Examples/Subscriptions.antt =====
-- subscriptions.cpp at concrete inputs.
use stream_cloud.Prelude.{◌≡◌, refl, true, false, String, Option, some, List, [], ◌∷◌}
use stream_cloud.Api.Message.{Task}
use stream_cloud.Manager.GroupKeys.{strings_of, accumulate}
use stream_cloud.Manager.Subscriptions.{Subscriptions, select_user_groups, on, off, emit}
use stream_cloud.Manager.Subscriptions.Access.{
  IsAsking, is_subscribed, on-is_subscribed, off-is_subscribed,
}
use stream_cloud.Manager.Subscriptions.Delivery.{AreDelivered, emit-AreDelivered}
use stream_cloud.Toy.{running, libraries, json, everyone, request, task}
use stream_cloud.Toy.Laws.{json_laws}
use stream_cloud.Toy.JsonTree.{Fields, text, obj, arr, nil, cons, field, end}

abbrev groups : List (List (Option String))
groups = (some "g1" ∷ []) ∷ []

-- "t1" and "t2" are subscribed to the device "k", and "t1" alone to "j"
abbrev state : Subscriptions libraries
state = record {
  db = record { answers = (select_user_groups, groups) ∷ []; numbers = [] };
  members = ("k", "t2" ∷ "t1" ∷ []) ∷ ("j", "t1" ∷ []) ∷ [];
}

abbrev asking : Task json
asking =
    task
      (request "devices.subscribe" (obj (field "device-key" (text "l") end))
        (field "device-groups" (arr (cons (text "g1") nil)) end))
      (("user.login", "bob") ∷ ("user.admin", "0") ∷ [])

abbrev leaving : Task json
leaving = task (request "devices.unsubscribe" (obj (field "device-key" (text "k") end)) end) []

asking-IsAsking : IsAsking everyone asking state "l" (text "g1" ∷ []) ("g1" ∷ []) groups
unfolding running strings_of accumulate
asking-IsAsking = record {
  given_groups = refl;
  given_key = refl;
  some_groups = refl;
  read_keys = refl;
  found = refl;
}

on-is_subscribed_example : is_subscribed "l" "t1" (on everyone asking state).state.members ≡ true
unfolding running is_subscribed
on-is_subscribed_example =
    on-is_subscribed everyone asking state "l" (text "g1" ∷ []) ("g1" ∷ []) groups "l" "t1"
      asking-IsAsking

off-is_subscribed_example :
    is_subscribed "k" "t1" (off everyone leaving state).state.members ≡ false
unfolding running is_subscribed
off-is_subscribed_example = off-is_subscribed everyone leaving state "k" "k" "t1" refl

abbrev metadata : Fields
metadata = field "device-key" (text "k") end

abbrev notification : Fields
notification = field "method" (text "changed") (field "metadata" (obj metadata) end)

emit-AreDelivered_example :
    AreDelivered libraries notification metadata
      ("t2" ∷ "t1" ∷ [])
      (emit everyone notification state).sent
unfolding running
emit-AreDelivered_example =
    emit-AreDelivered json_laws everyone notification metadata refl notification state
      (obj metadata) "k" ("t2" ∷ "t1" ∷ []) refl refl refl refl refl
