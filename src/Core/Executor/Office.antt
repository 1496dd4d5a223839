-- ===== src/Core/Executor/Office.antt =====
-- The executor without mailboxes, and the office that a system stands for.
use stream_cloud.Prelude.{
  ℕ, Bool, true, false, nat_eq, if◌then◌else◌, ◌≡◌, refl, ap, ◌∙◌, Bool-cases, inl, inr, List, [],
  ◌∷◌, ◌++◌, arith,
}
use stream_cloud.Core.MailQueue.{MailQueue, put}
use stream_cloud.Core.MailQueue.Order.{contents, put-contents}
use stream_cloud.Core.Executor.{System, at_mailbox, put_message, send, send_all}

-- The executor without mailboxes: the messages of each actor, in order, and the jobs.
pub record Office (A S : Type 0) : Type 0 where
  pub messages : ℕ → List A
  pub queue : List ℕ
  pub state : S

pub nat_eq_refl : (a : ℕ) → nat_eq a a ≡ true
nat_eq_refl a = ground arith

pub eq_of_nat_eq : (a b : ℕ) → nat_eq a b ≡ true → a ≡ b
eq_of_nat_eq a b h = ground arith

module _ {A : Type 0} where
  pub contents-if :
      (c : Bool) (p q : MailQueue A)
      → contents (if c then p else q) ≡ (if c then contents p else contents q)
  contents-if true p q = refl
  contents-if false p q = refl

  pub same_messages : (a : ℕ) (f : ℕ → List A) (b : ℕ) → (if nat_eq a b then f a else f b) ≡ f b
  same_messages a f b = elim (Bool-cases (nat_eq a b)) [
    | inl e ↦ rw e (ap f (eq_of_nat_eq a b e))
    | inr e ↦ rw e refl
  ]

  pub if-if :
      (c : Bool) (k l m : List A) → (if c then k else if c then l else m) ≡ (if c then k else m)
  if-if true k l m = refl
  if-if false k l m = refl

module _ {A S : Type 0} where
  abbrev pub set_messages : ℕ → List A → Office A S → Office A S
  set_messages a l x = record x { messages = λ b. if nat_eq a b then l else x.messages b }

  abbrev pub deliver : ℕ → A → Office A S → Office A S
  deliver a m x = record (set_messages a (x.messages a ++ (m ∷ [])) x) {
    queue = x.queue ++ (a ∷ []);
  }

  abbrev pub deliver_all : List (ℕ × A) → Office A S → Office A S
  deliver_all [] x = x
  deliver_all ((a, m) ∷ rest) x = deliver_all rest (deliver a m x)

  -- The office that a system stands for.
  abbrev pub office : System A S → Office A S
  office sys = record {
    messages = λ a. contents (sys.mailboxes a);
    queue = sys.queue;
    state = sys.state;
  }

  pub office-at_mailbox :
      (a : ℕ) (q : MailQueue A) (sys : System A S)
      → office (at_mailbox a q sys) ≡ set_messages a (contents q) (office sys)
  unfolding at_mailbox
  office-at_mailbox a q sys = λ i. record {
    messages = λ b. contents-if (nat_eq a b) q (sys.mailboxes b) i;
    queue = sys.queue;
    state = sys.state;
  }

  pub set_messages-same : (a : ℕ) (x : Office A S) → set_messages a (x.messages a) x ≡ x
  set_messages-same a x = λ i. record {
    messages = λ b. same_messages a x.messages b i;
    queue = x.queue;
    state = x.state;
  }

  pub set_messages-set_messages :
      (a : ℕ) (k l : List A) (x : Office A S)
      → set_messages a k (set_messages a l x) ≡ set_messages a k x
  set_messages-set_messages a k l x = λ i. record {
    messages = λ b. if-if (nat_eq a b) k l (x.messages b) i;
    queue = x.queue;
    state = x.state;
  }

  pub office-put_message :
      (a : ℕ) (m : A) (sys : System A S)
      → office (put_message a m sys)
        ≡ set_messages a (contents (sys.mailboxes a) ++ (m ∷ [])) (office sys)
  unfolding put_message
  office-put_message a m sys =
      office-at_mailbox a (put m (sys.mailboxes a)) sys
      ∙ ap (λ l. set_messages a l (office sys)) (put-contents m (sys.mailboxes a))

  pub office-send :
      (a : ℕ) (m : A) (sys : System A S) → office (send a m sys) ≡ deliver a m (office sys)
  unfolding send
  office-send a m sys =
      ap {A = Office A S} (λ x. record x { queue = sys.queue ++ (a ∷ []) })
        (office-put_message a m sys)

  pub office-send_all :
      (out : List (ℕ × A)) (sys : System A S)
      → office (send_all out sys) ≡ deliver_all out (office sys)
  unfolding send_all
  office-send_all [] sys = refl
  office-send_all ((a, m) ∷ rest) sys =
      office-send_all rest (send a m sys) ∙ ap (deliver_all rest) (office-send a m sys)
