-- ===== src/Prelude/Maps.antt =====
-- `std::unordered_map<std::string, V>` as an association list, whose order stands for the
-- iteration order, and `std::unordered_set<std::string>` as a list.
use Prim.Native.String.{String}
use mathlib.Core.Path.{◌≡◌, refl}
use mathlib.Core.Bool.{Bool, true, false, ◌||◌}
use mathlib.Core.Option.{Option, none, some}
use mathlib.Core.List.{List, [], ◌∷◌}
use native.Mathlib.Omega.{arith}
use text.Mathlib.Text.{◌==◌}
use text.Mathlib.TextEquality.{eq_iff}
use stream_cloud.Prelude.Tests.{if◌then◌else◌}

abbrev pub Assoc {ℓ} : Type ℓ → Type ℓ
Assoc V = List (String × V)

abbrev pub is_some {ℓ} : {A : Type ℓ} → Option A → Bool
is_some none = false
is_some (some _) = true

module _ {ℓ} {V : Type ℓ} where
  unfoldable pub lookup : String → Assoc V → Option V
  lookup k [] = none
  lookup k ((j, v) ∷ m) = if j == k then some v else lookup k m

  -- `m.find(k) != m.end()`
  abbrev pub has_key : String → Assoc V → Bool
  has_key k m = is_some (lookup k m)

  -- `m.emplace(k, v)`: an entry that is there stays
  unfoldable pub emplace : String → V → Assoc V → Assoc V
  emplace k v m = if has_key k m then m else (k, v) ∷ m

  -- `m.erase(k)`
  unfoldable pub erase : String → Assoc V → Assoc V
  erase k [] = []
  erase k ((j, v) ∷ m) = let rest = erase k m in if j == k then rest else (j, v) ∷ rest

  -- `m[k] = v`
  unfoldable pub assign : String → V → Assoc V → Assoc V
  assign k v [] = (k, v) ∷ []
  assign k v ((j, w) ∷ m) = if j == k then (k, v) ∷ m else (j, w) ∷ assign k v m

  pub lookup-emplace :
      (k j : String) (v : V) (m : Assoc V)
      → lookup j (emplace k v m)
        ≡ (if has_key k m then lookup j m else if k == j then some v else lookup j m)
  unfolding lookup emplace
  lookup-emplace k j v m = ground arith

  pub lookup-erase :
      (k j : String) (m : Assoc V) → lookup j (erase k m) ≡ (if k == j then none else lookup j m)
  unfolding lookup erase
  lookup-erase k j [] = ground arith
  lookup-erase k j ((i, v) ∷ m) =
      ground (arith, lookup-erase k j m, eq_iff i k, eq_iff i j, eq_iff k j)

  pub lookup-assign :
      (k j : String) (v : V) (m : Assoc V)
      → lookup j (assign k v m) ≡ (if k == j then some v else lookup j m)
  unfolding lookup assign
  lookup-assign k j v [] = refl
  lookup-assign k j v ((i, w) ∷ m) =
      ground (arith, lookup-assign k j v m, eq_iff i k, eq_iff i j, eq_iff k j)

-- `s.count(a) > 0`, and boost's `any_of_equal`
unfoldable pub contains : String → List String → Bool
contains a [] = false
contains a (x ∷ xs) = x == a || contains a xs

-- `s.emplace(a)` of a set
unfoldable pub set_emplace : String → List String → List String
unfolding contains
set_emplace a xs = if contains a xs then xs else a ∷ xs

-- `s.erase(a)` of a set
unfoldable pub set_erase : String → List String → List String
set_erase a [] = []
set_erase a (x ∷ xs) = let rest = set_erase a xs in if x == a then rest else x ∷ rest

pub contains-set_emplace :
    (a b : String) (xs : List String) → contains b (set_emplace a xs) ≡ (a == b || contains b xs)
unfolding set_emplace
contains-set_emplace a b xs = ground (arith, eq_iff a b)

pub contains-set_erase :
    (a b : String) (xs : List String)
    → contains b (set_erase a xs) ≡ (if a == b then false else contains b xs)
unfolding set_erase contains
contains-set_erase a b [] = ground arith
contains-set_erase a b (x ∷ xs) =
    ground (arith, contains-set_erase a b xs, eq_iff a b, eq_iff x a, eq_iff x b)

-- No text stands twice, as in a set.
abbrev pub IsSetLike : List String → Type 0
IsSetLike [] = Unit
IsSetLike (x ∷ xs) = (contains x xs ≡ false) × IsSetLike xs

pub set_emplace-IsSetLike :
    (a : String) (xs : List String) → IsSetLike xs → IsSetLike (set_emplace a xs)
unfolding set_emplace
set_emplace-IsSetLike a xs h = ground arith

pub set_erase-IsSetLike :
    (a : String) (xs : List String) → IsSetLike xs → IsSetLike (set_erase a xs)
unfolding set_erase
set_erase-IsSetLike a [] h = tt
set_erase-IsSetLike a (x ∷ xs) h =
    ground (arith, set_erase-IsSetLike a xs h.1, contains-set_erase a x xs, eq_iff a x)
