-- ===== src/Manager/Pipeline.antt =====
-- A request from the router's dispatcher through `users::auth` and back to the router's `service`.
use stream_cloud.Prelude.{
  String, true, ◌≡◌, ◌⊎◌, refl, sym, ap, ◌∙◌, ◌==◌, ◌||◌, eq_iff, [], ◌∷◌, emplace, assign, lookup,
  contains, Bool-cases, inl, inr,
}
use mathlib.Core.Path.{subst}
use stream_cloud.Api.Action.{ok}
use stream_cloud.Api.Libraries.{Libraries, Json}
use stream_cloud.Api.Rpc.{RequestMessage, string_at}
use stream_cloud.Api.Message.{Task, Message, Context, task_body, storage_at}
use stream_cloud.Manager.Users
use stream_cloud.Manager.Users.{Users, auth}
use stream_cloud.Manager.Users.Access.{HasPassword, IsOfNobody, auth-IsGranted, granted_admin}
use stream_cloud.Manager.Router.{Router, get_user_method_list, get_service_list, task_of, service}
use stream_cloud.Manager.Router.Access.{
  IsPermitted, service-IsPermitted, admin_mark, named_service, named_method,
}

task_body-injective : {J : Json} {t u : Task J} → task_body t ≡ task_body u → t ≡ u
task_body-injective e = cc

module _ (L : Libraries) (ctx : Context) (self : Router) (id : String)
    (request : RequestMessage L.json) (service_name method_name user_key name : String) where
  -- The task that `auth` passes on for a request of the dispatcher.
  abbrev pub authenticated : Task L.json
  authenticated =
      let t = task_of L ctx id request service_name method_name self.profile_key in
      record t {
        storage =
            emplace "user.login" name
              (assign "user.admin" (Users.bool_text (self.profile_key == user_key)) t.storage);
      }

  mark_of : admin_mark L ctx authenticated self ≡ Users.bool_text (self.profile_key == user_key)
  unfolding storage_at emplace assign lookup
  mark_of = refl

  named_of :
      (named_service L ctx authenticated self ≡ service_name)
      × (named_method L ctx authenticated self ≡ method_name)
  unfolding storage_at emplace assign lookup
  named_of = (refl, refl)

  abbrev pub first_task : Task L.json
  first_task = task_of L ctx id request service_name method_name self.profile_key

  authenticated_lem :
      (u : Users L)
      → record first_task {
        storage = emplace "user.login" name (granted_admin ctx first_task u user_key);
      }
        ≡ authenticated
  unfolding storage_at emplace assign lookup
  authenticated_lem u = refl

  permitted_cases :
      IsPermitted L ctx authenticated self
      → (self.profile_key ≡ user_key) ⊎ (contains request.method get_user_method_list ≡ true)
  permitted_cases p = elim (Bool-cases (self.profile_key == user_key)) [
    | inl e ↦ inl ((eq_iff _ user_key).0 e)
    | inr e ↦
        let h : (Users.bool_text (self.profile_key == user_key) == "1"
              || contains request.method get_user_method_list)
            ≡ true =
          rw (← mark_of) p.permitted in
        inr (rw e at h)
  ]

module _ (L : Libraries) (ctx : Context) (self : Router) (id : String)
    (request : RequestMessage L.json) (service_name method_name user_key : String) where
  -- What a request with a key has met by the time a service gets it.
  pub record IsAdmitted (u : Users L) (m : Message L.json) : Type 0 where
    pub accepted :
        (Users.is_auth user_key u.members ≡ true)
        ⊎ (self.profile_key ≡ user_key)
        ⊎ HasPassword L u user_key
        ⊎ IsOfNobody L u user_key
    pub permitted :
        (self.profile_key ≡ user_key) ⊎ (contains request.method get_user_method_list ≡ true)
    pub listed : contains service_name get_service_list ≡ true
    pub contact : m.contact ≡ service_name
    pub command : m.command ≡ method_name

  -- A request with a key is handed to a service by the dispatcher's task, `users::auth` and `service`
  -- only if the key is cached, or the profile's own, or has for its second part the password that the
  -- database has for its first part, or an empty one when the database has no row for its first part;
  -- if the service is listed, and the key is the profile's own or the
  -- method is open to users; and then it reaches the service and the command that it named.
  pub request-IsAdmitted :
      (u : Users L) (m2 m3 : Message L.json) (t2 t3 : Task L.json)
      → string_at L.json request.metadata "user-key" ≡ ok user_key
      → (auth ctx (task_of L ctx id request service_name method_name self.profile_key) u).sent
        ≡ m2 ∷ []
      → m2.contact ≡ "router"
      → m2.body ≡ task_body t2
      → (service L ctx t2 self).sent ≡ m3 ∷ []
      → m3.body ≡ task_body t3
      → IsAdmitted u m3
  unfolding storage_at lookup emplace
  request-IsAdmitted u m2 m3 t2 t3 key sent2 to body2 sent3 body3 =
      let t1 = task_of L ctx id request service_name method_name self.profile_key in
      let g = auth-IsGranted ctx t1 u user_key m2 key sent2 to in
      let t2_lem : t2
          ≡ authenticated L ctx self id request service_name method_name user_key g.name =
        task_body-injective (sym body2 ∙ ap (λ m. m.body) g.message)
        ∙ authenticated_lem L ctx self id request service_name method_name user_key g.name u in
      let p =
        service-IsPermitted L ctx _ self m3 t3
          (subst (λ t. (service L ctx t self).sent ≡ m3 ∷ []) t2_lem sent3) body3 in
      let named = named_of L ctx self id request service_name method_name user_key g.name in
      record {
        accepted = g.reason;
        permitted =
            permitted_cases L ctx self id request service_name method_name user_key g.name p.0;
        listed = subst (λ n. contains n get_service_list ≡ true) named.0 p.0.listed;
        contact = ap (λ m. m.contact) p.1 ∙ named.0;
        command = ap (λ m. m.command) p.1 ∙ named.1;
      }
