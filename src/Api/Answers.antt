-- ===== src/Api/Answers.antt =====
-- How a handler answers a task: one message settles it, and rules that follow the handler's form.
use stream_cloud.Prelude.{
  String, ◌≡◌, refl, Bool, true, false, List, [], ◌∷◌, if◌then◌else◌, Bool-cases, inl, inr, Option,
  some,
}
use stream_cloud.Api.Action.{
  Result, ok, threw, undefined, Action, pure, proceed, ◌>>=◌, recover, try_catch,
}
use stream_cloud.Api.Libraries.{Json}
use stream_cloud.Api.Rpc.{ResponseMessage}
use stream_cloud.Api.Message.{
  Task, Message, Context, Payload, task_body, send, success, failure, reply_message, reply, guarded,
  guarded_after,
}
use stream_cloud.Api.Effects.{
  Quiet, Yields, quiet_rules, Yields-pure, Yields-throw, Yields-if, Yields-bind, Yields-try_catch,
  Keeps, Keeps-pure, Keeps-try_catch,
}

-- A response to the task: it carries the task's id.
abbrev pub HasId : {J : Json} → Task J → ResponseMessage J → Type 0
HasId task r = r.id ≡ task.request.id

module _ {J : Json} {M S : Type 0} (task : Task J) where
  pub Yields-success : (v : J.Value) → Yields {M = M} {S = S} (HasId task) (pure (success task v))
  Yields-success v = Yields-pure (success task v) refl

  pub Yields-failure :
      (what : String) → Yields {M = M} {S = S} (HasId task) (pure (failure task what))
  Yields-failure what = Yields-pure (failure task what) refl

  pub Yields-response :
      (r : ResponseMessage J)
      → r.id ≡ task.request.id
      → Yields {M = M} {S = S} (HasId task) (pure r)
  Yields-response r e = Yields-pure r e

module _ {J : Json} {S : Type 0} where
  pub Yields-guarded :
      (task : Task J) (m : Action (Message J) S (ResponseMessage J))
      → Yields (HasId task) m
      → Yields (HasId task) (guarded task m)
  unfolding guarded
  Yields-guarded task m h = Yields-try_catch m _ h (λ what. Yields-failure task what)

  pub Yields-guarded_after :
      (task : Task J) (r : ResponseMessage J) (m : Action (Message J) S (ResponseMessage J))
      → r.id ≡ task.request.id
      → Yields (HasId task) m
      → Yields (HasId task) (guarded_after r m)
  unfolding guarded_after
  Yields-guarded_after task r m e h = Yields-try_catch m _ h (λ what. Yields-pure _ e)

pub ruleset response_rules = (
  refl, quiet_rules, Yields-throw, Yields-success, Yields-failure, Yields-response, Yields-if,
  Yields-bind, Yields-guarded, Yields-guarded_after,
)

-- The contact and the command that a handler hands its task on to, if there is one.
abbrev pub Hop : Type 0
Hop = Option (String × String)

-- The one message by which a task is settled: a response to the connection that it came from,
-- with its id, or the task itself, handed on with its connection and its id, as `hop` says.
pub data IsAnswer {J : Json} (hop : Hop) (task : Task J) : Message J → Type 0 where
  replied :
      (r : ResponseMessage J) → r.id ≡ task.request.id → IsAnswer hop task (reply_message task r)
  forwarded :
      (contact command : String) (t : Task J)
      → hop ≡ some (contact, command)
      → t.transport_id ≡ task.transport_id
      → t.request.id ≡ task.request.id
      → IsAnswer hop task (record { contact = contact; command = command; body = task_body t })

-- A run that ends normally has sent one answer; a run that throws has sent nothing.
abbrev pub AnsweredBy :
    {J : Json} {A : Type 0} → Hop → Task J → Result A → List (Message J) → Type 0
AnsweredBy {J} hop task (ok a) sent = (m : Message J) × (sent ≡ m ∷ []) × IsAnswer hop task m
AnsweredBy hop task (threw what) sent = sent ≡ []
AnsweredBy hop task undefined sent = sent ≡ []

pub record Answers {J : Json} {S A : Type 0} (hop : Hop) (task : Task J)
    (m : Action (Message J) S A) : Type 0 where
  pub at : (s : S) → AnsweredBy hop task (m s).result (m s).sent

module _ {J : Json} {S : Type 0} {hop : Hop} where
  pub Answers-reply :
      (ctx : Context) (task : Task J) (r : ResponseMessage J)
      → r.id ≡ task.request.id
      → Answers {S = S} hop task (reply ctx task r)
  unfolding reply
  Answers-reply ctx task r h = record {
    at = λ s. elim (Bool-cases (ctx.contacts "ws")) [
      | inl e ↦ rw e (reply_message task r, refl, replied r h)
      | inr e ↦ rw e refl
    ];
  }

  pub Answers-forward :
      (ctx : Context) (task : Task J) (contact command : String) (t : Task J)
      → hop ≡ some (contact, command)
      → t.transport_id ≡ task.transport_id
      → t.request.id ≡ task.request.id
      → Answers {S = S} hop task (send ctx contact command (task_body t))
  unfolding send
  Answers-forward ctx task contact command t e0 h k = record {
    at = λ s. elim (Bool-cases (ctx.contacts contact)) [
      | inl e ↦ rw e (_, refl, forwarded contact command t e0 h k)
      | inr e ↦ rw e refl
    ];
  }

  pub Answers-if :
      (b : Bool) (task : Task J) (m n : Action (Message J) S Unit)
      → Answers hop task m
      → Answers hop task n
      → Answers hop task (if b then m else n)
  Answers-if true task m n h k = h
  Answers-if false task m n h k = k

  pub Answers-try_catch :
      (task : Task J) (m : Action (Message J) S Unit) (handler : String → Action (Message J) S Unit)
      → Answers hop task m
      → ((what : String) → Answers hop task (handler what))
      → Answers hop task (try_catch m handler)
  unfolding try_catch
  Answers-try_catch task m handler h k = record {
    at = λ s. go (m s).result (m s).state (m s).sent (h.at s);
  }
    where
      go :
          (r : Result Unit) (s : S) (sent : List (Message J))
          → AnsweredBy hop task r sent
          → AnsweredBy hop task (recover r s sent handler).result (recover r s sent handler).sent
      go (ok a) s sent e = e
      go (threw what) s sent e = rw e ((k what).at s)
      go undefined s sent e = e

module _ {J : Json} {S A : Type 0} {hop : Hop} where
  pub Answers-bind :
      (task : Task J) (m : Action (Message J) S A) (f : A → Action (Message J) S Unit)
      → Quiet m
      → ((a : A) → Answers hop task (f a))
      → Answers hop task (m >>= f)
  unfolding ◌>>=◌
  Answers-bind task m f h k = record { at = λ s. go (m s).result (m s).state (m s).sent (h.at s) }
    where
      go :
          (r : Result A) (s : S) (sent : List (Message J))
          → sent ≡ []
          → AnsweredBy hop task (proceed r s sent f).result (proceed r s sent f).sent
      go (ok a) s sent e = rw e ((k a).at s)
      go (threw what) s sent e = e
      go undefined s sent e = e

module _ {J : Json} {S : Type 0} {hop : Hop} where
  -- A block that builds the response, and the code below it that sends the response.
  pub Answers-respond :
      (ctx : Context) (task : Task J) (m : Action (Message J) S (ResponseMessage J))
      → Yields (HasId task) m
      → Answers hop task (m >>= reply ctx task)
  unfolding ◌>>=◌
  Answers-respond ctx task m h = record {
    at = λ s. go (m s).result (m s).state (m s).sent s (h.quiet.at s) (h.holds s);
  }
    where
      go :
          (r : Result (ResponseMessage J)) (s : S) (sent : List (Message J)) (s' : S)
          → sent ≡ []
          → ((a : ResponseMessage J) → r ≡ ok a → HasId task a)
          → AnsweredBy hop task
              (proceed r s sent (reply ctx task)).result
              (proceed r s sent (reply ctx task)).sent
      go (ok a) s sent s' e k = rw e ((Answers-reply ctx task a (k a refl)).at s)
      go (threw what) s sent s' e k = e
      go undefined s sent s' e k = e

pub ruleset answer_rules = (
  response_rules, Answers-reply, Answers-forward, Answers-if, Answers-try_catch, Answers-respond,
  Answers-bind,
)

module _ {J : Json} {S : Type 0} {P : S → Type 0} where
  pub Keeps-send :
      (ctx : Context) (contact command : String) (body : Payload J)
      → Keeps P (send ctx contact command body)
  unfolding send
  Keeps-send ctx contact command body = record {
    at = λ s h. elim (Bool-cases (ctx.contacts contact)) [ inl e ↦ rw e h | inr e ↦ rw e h ];
  }

  pub Keeps-reply :
      (ctx : Context) (task : Task J) (r : ResponseMessage J) → Keeps P (reply ctx task r)
  unfolding reply
  Keeps-reply ctx task r = Keeps-send ctx "ws" "write" _

  pub Keeps-guarded :
      (task : Task J) (m : Action (Message J) S (ResponseMessage J))
      → Keeps P m
      → Keeps P (guarded task m)
  unfolding guarded
  Keeps-guarded task m h = Keeps-try_catch m _ h (λ what. Keeps-pure (failure task what))

  pub Keeps-guarded_after :
      (r : ResponseMessage J) (m : Action (Message J) S (ResponseMessage J))
      → Keeps P m
      → Keeps P (guarded_after r m)
  unfolding guarded_after
  Keeps-guarded_after r m h = Keeps-try_catch m _ h (λ what. Keeps-pure _)

pub ruleset keeps_messages = (Keeps-send, Keeps-reply, Keeps-guarded, Keeps-guarded_after)
