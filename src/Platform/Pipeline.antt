-- ===== src/Platform/Pipeline.antt =====
-- A request from the platform's router through `profile::auth` and back to the router's `service`.
use stream_cloud.Prelude.{
  String, true, ◌≡◌, ◌⊎◌, refl, sym, ap, ◌∙◌, arith, List, [], ◌∷◌, emplace, lookup, contains,
}
use mathlib.Core.Path.{subst}
use stream_cloud.Api.Action.{ok}
use stream_cloud.Api.Libraries.{Libraries, Json}
use stream_cloud.Api.Rpc
use stream_cloud.Api.Rpc.{RequestMessage, string_at}
use stream_cloud.Api.Message.{Task, Message, Context, task_body, storage_at, send}
use stream_cloud.Platform.Profile.{Profile, is_auth, auth}
use stream_cloud.Platform.Profile.Access.{HasPassword, IsOfNobody, auth-IsAuthentic}
use stream_cloud.Platform.Router.{get_service_list, task_of, route, service}
use stream_cloud.Platform.Router.Access.{service-Listed, named_service, named_method}

task_body-injective : {J : Json} {t u : Task J} → task_body t ≡ task_body u → t ≡ u
task_body-injective e = cc

sent_one : {J : Json} {m n : Message J} → m ∷ [] ≡ n ∷ [] → m ≡ n
sent_one e = cc

module _ (L : Libraries) (ctx : Context) (id : String) (request : RequestMessage L.json)
    (service_name method_name profile_key : String) where
  -- The first message of the router, for a request with a key.
  abbrev pub to_profile : Message L.json
  to_profile = record {
    contact = "profile";
    command = "auth";
    body = task_body (task_of L ctx id request service_name method_name);
  }

  route_key :
      (rest : List String)
      → Rpc.contains L.json request.metadata "profile-key" ≡ true
      → ctx.contacts "profile" ≡ true
      → (route L ctx id request (service_name ∷ method_name ∷ rest) tt).sent ≡ to_profile ∷ []
  unfolding route send
  route_key rest key known = ground arith

  abbrev pub authenticated : String → Task L.json
  authenticated name =
      let t = task_of L ctx id request service_name method_name in
      record t { storage = emplace "profile.login" name t.storage }

  named_of :
      (name : String)
      → (named_service L ctx (authenticated name) ≡ service_name)
        × (named_method L ctx (authenticated name) ≡ method_name)
  unfolding storage_at emplace lookup
  named_of name = (refl, refl)

  -- What a request with a key has met by the time a service gets it.
  pub record IsAdmitted (p : Profile L) (m : Message L.json) : Type 0 where
    pub accepted :
        (is_auth profile_key p.members ≡ true)
        ⊎ HasPassword L p profile_key
        ⊎ IsOfNobody L p profile_key
    pub listed : contains service_name get_service_list ≡ true
    pub contact : m.contact ≡ service_name
    pub command : m.command ≡ method_name

  -- A request with a profile's key is handed to a service by the platform's router, `profile::auth` and
  -- the router's `service` only if the key is cached, or has for its second part the password that the
  -- database has for its first part, or an empty one when the database has no row for its first part;
  -- and if the service is listed; and then it reaches the service and the command that it named.
  pub request-IsAdmitted_platform :
      (rest : List String) (p : Profile L) (m1 m2 m3 : Message L.json) (t1 t2 t3 : Task L.json)
      → string_at L.json request.metadata "profile-key" ≡ ok profile_key
      → Rpc.contains L.json request.metadata "profile-key" ≡ true
      → ctx.contacts "profile" ≡ true
      → (route L ctx id request (service_name ∷ method_name ∷ rest) tt).sent ≡ m1 ∷ []
      → m1.body ≡ task_body t1
      → (auth ctx t1 p).sent ≡ m2 ∷ []
      → m2.contact ≡ "router"
      → m2.body ≡ task_body t2
      → (service L ctx t2 tt).sent ≡ m3 ∷ []
      → m3.body ≡ task_body t3
      → (m1.contact ≡ "profile") × (m1.command ≡ "auth") × IsAdmitted p m3
  request-IsAdmitted_platform rest p m1 m2 m3 t1 t2 t3 key has known sent1 body1 sent2 to body2
        sent3 body3 =
      let first = sent_one (sym (route_key rest has known) ∙ sent1) in
      let t1_lem : task_of L ctx id request service_name method_name ≡ t1 =
        task_body-injective (ap (λ m. m.body) first ∙ body1) in
      let sent2' : (auth ctx (task_of L ctx id request service_name method_name) p).sent ≡ m2 ∷ [] =
        subst (λ t. (auth ctx t p).sent ≡ m2 ∷ []) (sym t1_lem) sent2 in
      let g = auth-IsAuthentic ctx _ p profile_key m2 key sent2' to in
      let t2_lem : t2 ≡ authenticated g.name =
        task_body-injective (sym body2 ∙ ap (λ m. m.body) g.message) in
      let q =
        service-Listed L ctx _ m3 t3 (subst (λ t. (service L ctx t tt).sent ≡ m3 ∷ []) t2_lem sent3)
          body3 in
      let named = named_of g.name in
      (
        ap (λ m. m.contact) (sym first),
        ap (λ m. m.command) (sym first),
        record {
          accepted = g.reason;
          listed = subst (λ n. contains n get_service_list ≡ true) named.0 q.0;
          contact = ap (λ m. m.contact) q.2 ∙ named.0;
          command = ap (λ m. m.command) q.2 ∙ named.1;
        },
      )
