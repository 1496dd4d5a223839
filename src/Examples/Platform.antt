-- ===== src/Examples/Platform.antt =====
-- The services of the platform at concrete inputs.
use Prim.Native.String
use stream_cloud.Prelude.{String, ◌≡◌, ◌≢◌, ◌≤◌, ◌+◌, ◌*◌, refl, true, some, [], ◌∷◌, ◌++◌}
use stream_cloud.Api.Rpc
use stream_cloud.Api.Message.{Task, Message, task_body, text_body, reply_message, success, failure}
use stream_cloud.Platform.Managers
use stream_cloud.Platform.Managers.{Managers, manager_key_of, trusted_url, delete, request}
use stream_cloud.Platform.Managers.Names.{trusted, add_bounds}
use stream_cloud.Platform.Managers.Relay.{told, request-delete}
use stream_cloud.Platform.Profile.{Profile, auth}
use stream_cloud.Platform.Router.{task_of, route, service}
use stream_cloud.Platform.Pipeline.{
  IsAdmitted, to_profile, authenticated, request-IsAdmitted_platform,
}
use stream_cloud.Platform.Router.Access.{handed_on}
use stream_cloud.Toy
use stream_cloud.Toy.{running, libraries, json, everyone, task}
use stream_cloud.Toy.JsonTree.{null, text, obj, field, end}

-- one manager is connected, and the database finds every manager
abbrev pub managers_state : Managers libraries
managers_state = record {
  db = record {
    answers = [];
    numbers = ("select count(*) from managers where key = ? and profile_login = ?", 1) ∷ [];
  };
  members = ("ann.home", "m1") ∷ [];
}

abbrev adding : Task json
adding =
    task (Toy.request "managers.add" (obj (field "name" (text "home") end)) end)
      (("profile.login", "ann") ∷ [])

-- a profile deletes a manager of another one
abbrev deleting : Task json
deleting =
    task (Toy.request "managers.delete" (obj (field "key" (text "ann.home") end)) end)
      (("profile.login", "eve") ∷ [])

abbrev pub asking : Task json
asking = task (Toy.request "users.list" null (field "manager-key" (text "ann.home") end)) []

nonempty : ◌≢◌ {A = String} "ann.home" ""
nonempty e = cc

add_run :
    (Managers.add everyone adding managers_state).sent
    ≡ trusted libraries adding "home"
      ∷ reply_message adding (success adding (obj (field "key" (text "ann.home") end)))
      ∷ []
unfolding Managers.add running
add_run = refl

add_bounds_example :
    (◌≢◌ {A = String} "home" "")
    × (trusted libraries adding "home" ≡ trusted libraries adding "home")
    × (String.len (trusted_url "ann" (manager_key_of "ann" "home")) ≤ 2 * String.len "ann" + 8)
unfolding running
add_bounds_example =
    add_bounds {L = libraries} everyone adding managers_state "home"
      (trusted libraries adding "home") _ refl add_run refl

request-delete_example :
    ((delete everyone deleting managers_state).sent
      ≡ record {
        contact = "http";
        command = "remove_trusted_url";
        body = text_body (trusted_url "eve" "ann.home");
      }
          ∷ told libraries deleting (some "m1")
        ++ (reply_message deleting (success deleting (libraries.of_bool true)) ∷ []))
    × ((request everyone asking (delete everyone deleting managers_state).state).sent
        ≡ reply_message asking (failure asking "manager not connection") ∷ [])
unfolding running
request-delete_example =
    request-delete everyone deleting asking managers_state "ann.home" refl nonempty refl refl refl
      refl

-- the profile of "bob", with its password
abbrev profile_state : Profile libraries
profile_state = record {
  db = record {
    answers =
        (
          "select login, password from profile where login = ? limit 1;",
          (some "bob" ∷ some "pw" ∷ []) ∷ [],
        )
        ∷ [];
    numbers = [];
  };
  members = [];
}

abbrev bobs : Rpc.RequestMessage json
bobs = Toy.request "managers.list" null (field "profile-key" (text "bob.pw") end)

abbrev first : Message json
first = to_profile libraries everyone "t1" bobs "managers" "list" "bob.pw"

abbrev passed : Task json
passed = authenticated libraries everyone "t1" bobs "managers" "list" "bob.pw" "bob"

abbrev second : Message json
second = record { contact = "router"; command = "service"; body = task_body passed }

route_run : (route libraries everyone "t1" bobs ("managers" ∷ "list" ∷ []) tt).sent ≡ first ∷ []
unfolding route running Rpc.contains
route_run = refl

auth_run :
    (auth everyone (task_of libraries everyone "t1" bobs "managers" "list") profile_state).sent
    ≡ second ∷ []
unfolding auth running
auth_run = refl

service_run : (service libraries everyone passed tt).sent ≡ handed_on libraries everyone passed ∷ []
unfolding service running
service_run = refl

request-IsAdmitted_platform_example :
    (first.contact ≡ "profile")
    × (first.command ≡ "auth")
    × IsAdmitted libraries everyone "t1" bobs "managers" "list" "bob.pw" profile_state
        (handed_on libraries everyone passed)
unfolding running Rpc.contains
request-IsAdmitted_platform_example =
    request-IsAdmitted_platform libraries everyone "t1" bobs "managers" "list" "bob.pw" []
      profile_state first second (handed_on libraries everyone passed) _ passed _ refl refl refl
      route_run refl auth_run refl refl service_run refl
