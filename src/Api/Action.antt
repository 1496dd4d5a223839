-- ===== src/Api/Action.antt =====
-- C++ statements of a message handler: they read and write the service's members, send messages,
-- and may throw a `std::exception`. `undefined` is undefined behaviour, such as an index past the
-- end of a `std::vector`. What was written and sent before a throw stays.
use stream_cloud.Prelude.{String, ◌≡◌, refl, ◌⊎◌, inl, inr, List, [], ◌∷◌, ◌++◌, Option, none, some}

pub data Result {ℓ} (A : Type ℓ) : Type ℓ where
  ok : A → Result A
  threw : String → Result A
  undefined : Result A

-- A value that may be missing, where the source throws `what` without it.
abbrev pub or_throw {ℓ} : {A : Type ℓ} → String → Option A → Result A
or_throw what none = threw what
or_throw what (some a) = ok a

-- An index without a bounds check.
abbrev pub or_undefined {ℓ} : {A : Type ℓ} → Option A → Result A
or_undefined none = undefined
or_undefined (some a) = ok a

pub Result-cases {ℓ} :
    {A : Type ℓ} (r : Result A)
    → ((a : A) × (r ≡ ok a)) ⊎ ((what : String) × (r ≡ threw what)) ⊎ (r ≡ undefined)
Result-cases (ok a) = inl (a, refl)
Result-cases (threw what) = inr (inl (what, refl))
Result-cases undefined = inr (inr refl)

-- The end of a run: its result, the members, and what was sent, oldest first.
pub record Out (M S A : Type 0) : Type 0 where
  pub result : Result A
  pub state : S
  pub sent : List M

abbrev pub Action : Type 0 → Type 0 → Type 0 → Type 0
Action M S A = S → Out M S A

module _ {M S A : Type 0} where
  unfoldable pub pure : A → Action M S A
  pure a s = record { result = ok a; state = s; sent = [] }

  unfoldable pub throw : String → Action M S A
  throw what s = record { result = threw what; state = s; sent = [] }

  unfoldable pub lift : Result A → Action M S A
  lift r s = record { result = r; state = s; sent = [] }

  unfoldable pub gets : (S → A) → Action M S A
  gets f s = record { result = ok (f s); state = s; sent = [] }

module _ {M S : Type 0} where
  unfoldable pub modify : (S → S) → Action M S Unit
  modify f s = record { result = ok tt; state = f s; sent = [] }

  unfoldable pub emit : M → Action M S Unit
  emit m s = record { result = ok tt; state = s; sent = m ∷ [] }

module _ {M S A B : Type 0} where
  abbrev pub proceed : Result A → S → List M → (A → Action M S B) → Out M S B
  proceed (ok a) s sent f =
      let next = f a s in
      record { result = next.result; state = next.state; sent = sent ++ next.sent }
  proceed (threw what) s sent f = record { result = threw what; state = s; sent = sent }
  proceed undefined s sent f = record { result = undefined; state = s; sent = sent }

  infixl 5 ◌>>=◌ ◌>>◌
  unfoldable pub ◌>>=◌ : Action M S A → (A → Action M S B) → Action M S B
  unfolding pure throw lift gets modify emit
  ◌>>=◌ m f s = let o = m s in proceed o.result o.state o.sent f

  abbrev pub ◌>>◌ : Action M S A → Action M S B → Action M S B
  m >> n = m >>= λ _. n

module _ {M S A : Type 0} where
  abbrev pub recover : Result A → S → List M → (String → Action M S A) → Out M S A
  recover (threw what) s sent handler =
      let next = handler what s in
      record { result = next.result; state = next.state; sent = sent ++ next.sent }
  recover r s sent handler = record { result = r; state = s; sent = sent }

  -- `try { … } catch (std::exception &e) { … }`
  unfoldable pub try_catch : Action M S A → (String → Action M S A) → Action M S A
  try_catch m handler s = let o = m s in recover o.result o.state o.sent handler
