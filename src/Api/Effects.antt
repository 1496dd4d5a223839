-- ===== src/Api/Effects.antt =====
-- What a statement of a handler sends, returns and keeps: rules that follow its form.
use mathlib.Core.Path.{subst}
use stream_cloud.Prelude.{String, ◌≡◌, refl, Bool, true, false, List, [], if◌then◌else◌}
use stream_cloud.Api.Action.{
  Result, ok, threw, undefined, Out, Action, pure, throw, lift, gets, modify, proceed, ◌>>=◌,
  recover, try_catch,
}

-- A statement that sends nothing, whatever happens.
pub record Quiet {M S A : Type 0} (m : Action M S A) : Type 0 where
  pub at : (s : S) → (m s).sent ≡ []

module _ {M S A : Type 0} where
  pub Quiet-pure : (a : A) → Quiet {M = M} {S = S} (pure a)
  unfolding pure
  Quiet-pure a = record { at = λ s. refl }

  pub Quiet-throw : (what : String) → Quiet {M = M} {S = S} {A = A} (throw what)
  unfolding throw
  Quiet-throw what = record { at = λ s. refl }

  pub Quiet-lift : (r : Result A) → Quiet {M = M} {S = S} (lift r)
  unfolding lift
  Quiet-lift r = record { at = λ s. refl }

  pub Quiet-gets : (f : S → A) → Quiet {M = M} (gets f)
  unfolding gets
  Quiet-gets f = record { at = λ s. refl }

  pub Quiet-if : (b : Bool) (m n : Action M S A) → Quiet m → Quiet n → Quiet (if b then m else n)
  Quiet-if true m n h k = h
  Quiet-if false m n h k = k

module _ {M S : Type 0} where
  pub Quiet-modify : (f : S → S) → Quiet {M = M} (modify f)
  unfolding modify
  Quiet-modify f = record { at = λ s. refl }

module _ {M S A B : Type 0} where
  proceed-quiet :
      (r : Result A) (s : S) (sent : List M) (f : A → Action M S B)
      → sent ≡ []
      → ((a : A) → (f a s).sent ≡ [])
      → (proceed r s sent f).sent ≡ []
  proceed-quiet (ok a) s sent f h k = rw h (k a)
  proceed-quiet (threw what) s sent f h k = h
  proceed-quiet undefined s sent f h k = h

  pub Quiet-bind :
      (m : Action M S A) (f : A → Action M S B)
      → Quiet m
      → ((a : A) → Quiet (f a))
      → Quiet (m >>= f)
  unfolding ◌>>=◌
  Quiet-bind m f h k = record {
    at = λ s.
        proceed-quiet (m s).result (m s).state (m s).sent f (h.at s) (λ a. (k a).at (m s).state);
  }

module _ {M S A : Type 0} where
  recover-Quiet :
      (o : Out M S A) (handler : String → Action M S A)
      → o.sent ≡ []
      → ((what : String) → Quiet (handler what))
      → (recover o.result o.state o.sent handler).sent ≡ []
  recover-Quiet o handler h k = go o.result o.state o.sent h
    where
      go : (r : Result A) (s : S) (sent : List M) → sent ≡ [] → (recover r s sent handler).sent ≡ []
      go (ok a) s sent e = e
      go (threw what) s sent e = rw e ((k what).at s)
      go undefined s sent e = e

  pub Quiet-try_catch :
      (m : Action M S A) (handler : String → Action M S A)
      → Quiet m
      → ((what : String) → Quiet (handler what))
      → Quiet (try_catch m handler)
  unfolding try_catch
  Quiet-try_catch m handler h k = record { at = λ s. recover-Quiet (m s) handler (h.at s) k }

pub ruleset quiet_rules = (
  Quiet-pure, Quiet-throw, Quiet-lift, Quiet-gets, Quiet-if, Quiet-modify, Quiet-bind,
  Quiet-try_catch,
)

ok-injective : {A : Type 0} {a b : A} → ok a ≡ ok b → a ≡ b
ok-injective e = cc

-- A statement that sends nothing, and whose result, if it has one, satisfies `P`.
pub record Yields {M S A : Type 0} (P : A → Type 0) (m : Action M S A) : Type 0 where
  pub quiet : Quiet m
  pub holds : (s : S) (a : A) → (m s).result ≡ ok a → P a

module _ {M S A : Type 0} {P : A → Type 0} where
  pub Yields-pure : (a : A) → P a → Yields {M = M} {S = S} P (pure a)
  unfolding pure
  Yields-pure a h = record { quiet = Quiet-pure a; holds = λ s b e. subst P (ok-injective e) h }

  pub Yields-throw : (what : String) → Yields {M = M} {S = S} P (throw what)
  unfolding throw
  Yields-throw what = record { quiet = Quiet-throw what; holds = λ s b e. cc }

  pub Yields-if :
      (b : Bool) (m n : Action M S A) → Yields P m → Yields P n → Yields P (if b then m else n)
  Yields-if true m n h k = h
  Yields-if false m n h k = k

  recover-yields :
      (r : Result A) (s : S) (sent : List M) (handler : String → Action M S A) (a : A)
      → ((b : A) → r ≡ ok b → P b)
      → ((what : String) → Yields P (handler what))
      → (recover r s sent handler).result ≡ ok a
      → P a
  recover-yields (ok b) s sent handler a h k e = h a e
  recover-yields (threw what) s sent handler a h k e = (k what).holds s a e
  recover-yields undefined s sent handler a h k e = cc

  pub Yields-try_catch :
      (m : Action M S A) (handler : String → Action M S A)
      → Yields P m
      → ((what : String) → Yields P (handler what))
      → Yields P (try_catch m handler)
  unfolding try_catch
  Yields-try_catch m handler h k = record {
    quiet = Quiet-try_catch m handler h.quiet (λ what. (k what).quiet);
    holds = λ s a e. recover-yields (m s).result (m s).state (m s).sent handler a (h.holds s) k e;
  }

module _ {M S A B : Type 0} {P : B → Type 0} where
  proceed-yields :
      (r : Result A) (s : S) (sent : List M) (f : A → Action M S B) (b : B)
      → ((a : A) → Yields P (f a))
      → (proceed r s sent f).result ≡ ok b
      → P b
  proceed-yields (ok a) s sent f b k e = (k a).holds s b e
  proceed-yields (threw what) s sent f b k e = cc
  proceed-yields undefined s sent f b k e = cc

  pub Yields-bind :
      (m : Action M S A) (f : A → Action M S B)
      → Quiet m
      → ((a : A) → Yields P (f a))
      → Yields P (m >>= f)
  unfolding ◌>>=◌
  Yields-bind m f h k = record {
    quiet = Quiet-bind m f h (λ a. (k a).quiet);
    holds = λ s b e. proceed-yields (m s).result (m s).state (m s).sent f b k e;
  }

-- A statement that keeps `P` of the members, also where it throws.
pub record Keeps {M S A : Type 0} (P : S → Type 0) (m : Action M S A) : Type 0 where
  pub at : (s : S) → P s → P (m s).state

module _ {M S A : Type 0} {P : S → Type 0} where
  pub Keeps-pure : (a : A) → Keeps {M = M} P (pure a)
  unfolding pure
  Keeps-pure a = record { at = λ s h. h }

  pub Keeps-throw : (what : String) → Keeps {M = M} {A = A} P (throw what)
  unfolding throw
  Keeps-throw what = record { at = λ s h. h }

  pub Keeps-lift : (r : Result A) → Keeps {M = M} P (lift r)
  unfolding lift
  Keeps-lift r = record { at = λ s h. h }

  pub Keeps-gets : (f : S → A) → Keeps {M = M} P (gets f)
  unfolding gets
  Keeps-gets f = record { at = λ s h. h }

  pub Keeps-if :
      (b : Bool) (m n : Action M S A) → Keeps P m → Keeps P n → Keeps P (if b then m else n)
  Keeps-if true m n h k = h
  Keeps-if false m n h k = k

  recover-keeps :
      (r : Result A) (s : S) (sent : List M) (handler : String → Action M S A)
      → P s
      → ((what : String) → Keeps P (handler what))
      → P (recover r s sent handler).state
  recover-keeps (ok a) s sent handler h k = h
  recover-keeps (threw what) s sent handler h k = (k what).at s h
  recover-keeps undefined s sent handler h k = h

  pub Keeps-try_catch :
      (m : Action M S A) (handler : String → Action M S A)
      → Keeps P m
      → ((what : String) → Keeps P (handler what))
      → Keeps P (try_catch m handler)
  unfolding try_catch
  Keeps-try_catch m handler h k = record {
    at = λ s p. recover-keeps (m s).result (m s).state (m s).sent handler (h.at s p) k;
  }

module _ {M S : Type 0} {P : S → Type 0} where
  pub Keeps-modify : (f : S → S) → ((s : S) → P s → P (f s)) → Keeps {M = M} P (modify f)
  unfolding modify
  Keeps-modify f h = record { at = h }

module _ {M S A B : Type 0} {P : S → Type 0} where
  proceed-keeps :
      (r : Result A) (s : S) (sent : List M) (f : A → Action M S B)
      → P s
      → ((a : A) → Keeps P (f a))
      → P (proceed r s sent f).state
  proceed-keeps (ok a) s sent f h k = (k a).at s h
  proceed-keeps (threw what) s sent f h k = h
  proceed-keeps undefined s sent f h k = h

  pub Keeps-bind :
      (m : Action M S A) (f : A → Action M S B)
      → Keeps P m
      → ((a : A) → Keeps P (f a))
      → Keeps P (m >>= f)
  unfolding ◌>>=◌
  Keeps-bind m f h k = record {
    at = λ s p. proceed-keeps (m s).result (m s).state (m s).sent f (h.at s p) k;
  }

pub ruleset keeps_rules =
    (Keeps-pure, Keeps-throw, Keeps-lift, Keeps-gets, Keeps-if, Keeps-try_catch, Keeps-bind)
