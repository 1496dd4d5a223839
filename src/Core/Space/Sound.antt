-- ===== src/Core/Space/Sound.antt =====
-- Spaces that are built by adding actors and linking those that are there, and what holds of them.
use stream_cloud.Prelude.{
  ℕ, zero, suc, Bool, true, false, ◌≡◌, ◌||◌, ◌&&◌, ◌<◌, ◌≤◌, refl, sym, ap, ◌∙◌, nat_eq,
  if◌then◌else◌, none, some, List, [], ◌∷◌, ◌++◌, arith, Bool-cases, Option-cases, inl, inr,
  get_elem?,
}
use stream_cloud.Core.Executor.{length}
use stream_cloud.Core.Executor.Office.{eq_of_nat_eq}
use stream_cloud.Core.Graph.{Node, new_node, finding_adjacency, lookup, update, node_id}
use stream_cloud.Core.Graph
use stream_cloud.Core.Graph.Sorted.{IsAscending, elem, add-IsAscending, elem-add}
use stream_cloud.Core.Graph.Vertices.{
  IsConsecutive, add_vertex_lem, append-IsConsecutive, update-IsConsecutive, lookup-update,
  length-update, add_edge_lem, add-id,
}
use stream_cloud.Core.Space.{
  Space, new_space, add, create_link, body_at, body_emplace, add_actor, get_actor,
}

-- Whether `(from, to)` is among the links.
abbrev pub linked : ℕ → ℕ → List (ℕ × ℕ) → Bool
linked from to [] = false
linked from to ((a, b) ∷ rest) = (nat_eq from a && nat_eq to b) || linked from to rest

-- The spaces that come about from an empty one, with the links that were made.
pub data Built {A : Type 0} : List (ℕ × ℕ) → Space A → Type 0 where
  started : Built [] new_space
  added : (t : A) (links : List (ℕ × ℕ)) (s : Space A) → Built links s → Built links (add t s).1
  made :
      (a b : ℕ) (links : List (ℕ × ℕ)) (s : Space A)
      → Built links s
      → a < length s.registry
      → b < length s.registry
      → Built ((a, b) ∷ links) (create_link a b s)

-- What holds of a built space.
pub record IsSound {A : Type 0} (links : List (ℕ × ℕ)) (s : Space A) : Type 0 where
  pub count : s.actors.counter ≡ length s.registry
  pub ids : IsConsecutive 0 s.registry
  pub stored : (j : ℕ) → j < length s.registry → (a : A) × (get_actor j s.actors ≡ some a)
  pub free : (j : ℕ) → length s.registry ≤ j → get_actor j s.actors ≡ none
  pub lists :
      (j : ℕ) (node : Node)
      → get_elem? s.registry j ≡ some node
      → IsAscending 0 node.list_vertex × ((i : ℕ) → elem i node.list_vertex ≡ linked j i links)
  pub bounded :
      (i j : ℕ) → linked j i links ≡ true → (i < length s.registry) × (j < length s.registry)

some_injective : {A : Type 0} {x y : A} → some x ≡ some y → x ≡ y
some_injective e = cc

length-append : {A : Type 0} (l : List A) (x : A) → length (l ++ (x ∷ [])) ≡ suc (length l)
length-append [] x = refl
length-append (y ∷ l) x = ap suc (length-append l x)

get-append :
    {A : Type 0} (l : List A) (x : A) (j : ℕ)
    → get_elem? (l ++ (x ∷ [])) j ≡ (if nat_eq j (length l) then some x else get_elem? l j)
get-append [] x zero = refl
get-append [] x (suc j) = ground arith
get-append (y ∷ l) x zero = ground arith
get-append (y ∷ l) x (suc j) = ground (arith, get-append l x j)

body_at-body_emplace :
    {A : Type 0} (j id : ℕ) (a : A) (m : List (ℕ × A))
    → body_at id m ≡ none
    → body_at j (body_emplace id a m) ≡ (if nat_eq j id then some a else body_at j m)
unfolding body_at body_emplace
body_at-body_emplace j id a [] e = ground arith
body_at-body_emplace j id a ((k, b) ∷ m) e = ground (arith, body_at-body_emplace j id a m)

module _ {A : Type 0} where
  pub IsSound-new_space : IsSound {A = A} [] new_space
  unfolding get_actor body_at
  IsSound-new_space = record {
    count = refl;
    ids = tt;
    stored = λ j h. absurd (omega arith);
    free = λ j h. refl;
    lists = λ j node e. absurd (cc);
    bounded = λ i j e. absurd (cc);
  }

  -- The parts of a space after `add`.
  registry-add :
      (t : A) (links : List (ℕ × ℕ)) (s : Space A)
      → IsSound links s
      → (add t s).1.registry ≡ s.registry ++ (new_node (length s.registry) ∷ [])
  unfolding add add_actor
  registry-add t links s h = rw (h.count) (add_vertex_lem s.registry h.ids)

  counter-add : (t : A) (s : Space A) → (add t s).1.actors.counter ≡ suc s.actors.counter
  unfolding add add_actor
  counter-add t s = refl

  get_actor-add :
      (t : A) (links : List (ℕ × ℕ)) (s : Space A) (j : ℕ)
      → IsSound links s
      → get_actor j (add t s).1.actors
        ≡ (if nat_eq j (length s.registry) then some t else get_actor j s.actors)
  unfolding add add_actor get_actor
  get_actor-add t links s j h = rw (h.count) (
      body_at-body_emplace j (length s.registry) t s.actors.body
        (h.free (length s.registry) (omega arith)))

  length-registry_add :
      (t : A) (links : List (ℕ × ℕ)) (s : Space A)
      → IsSound links s
      → length (add t s).1.registry ≡ suc (length s.registry)
  length-registry_add t links s h =
      ap length (registry-add t links s h) ∙ length-append s.registry (new_node (length s.registry))

  unlinked :
      (links : List (ℕ × ℕ)) (s : Space A) (i : ℕ)
      → IsSound links s
      → linked (length s.registry) i links ≡ false
  unlinked links s i h = elim (Bool-cases (linked (length s.registry) i links)) [
    | inl e ↦ absurd (let b = (h.bounded i (length s.registry) e).1 in omega arith)
    | inr e ↦ e
  ]

  lists-add :
      (t : A) (links : List (ℕ × ℕ)) (s : Space A) (j : ℕ) (node : Node)
      → IsSound links s
      → get_elem? (s.registry ++ (new_node (length s.registry) ∷ [])) j ≡ some node
      → IsAscending 0 node.list_vertex × ((i : ℕ) → elem i node.list_vertex ≡ linked j i links)
  lists-add t links s j node h e =
      let at = sym (get-append s.registry (new_node (length s.registry)) j) ∙ e in
      elim (Bool-cases (nat_eq j (length s.registry))) [
        | inl d ↦
            let fresh : new_node (length s.registry) ≡ node = some_injective (rw d at at) in
            rw (← fresh)
              (tt, λ i. rw (eq_of_nat_eq j (length s.registry) d) (sym (unlinked links s i h)))
        | inr d ↦ h.lists j node (rw d at at)
      ]

  stored-add :
      (t : A) (links : List (ℕ × ℕ)) (s : Space A) (j : ℕ)
      → IsSound links s
      → j < suc (length s.registry)
      → (a : A) × (get_actor j (add t s).1.actors ≡ some a)
  stored-add t links s j h k = elim (Bool-cases (nat_eq j (length s.registry))) [
    | inl d ↦ (t, get_actor-add t links s j h ∙ (rw d))
    | inr d ↦
        let old = h.stored j (ground arith) in (old.0, get_actor-add t links s j h ∙ rw d old.1)
  ]

  pub IsSound-add :
      (t : A) (links : List (ℕ × ℕ)) (s : Space A) → IsSound links s → IsSound links (add t s).1
  IsSound-add t links s h = record {
    count = rw (counter-add t s, length-registry_add t links s h, h.count);
    ids =
        rw (registry-add t links s h)
          (append-IsConsecutive (length s.registry) 0 s.registry h.ids (omega arith));
    stored = λ j k. stored-add t links s j h (rw (length-registry_add t links s h) at k);
    free = λ j k.
        let k' = rw (length-registry_add t links s h) at k in
        get_actor-add t links s j h ∙ ground (arith, h.free j);
    lists = λ j node e. lists-add t links s j node h (rw (registry-add t links s h) at e);
    bounded = λ i j e.
        let b = h.bounded i j e in rw (length-registry_add t links s h) (omega arith, omega arith);
  }

  registry-create_link :
      (a b : ℕ) (links : List (ℕ × ℕ)) (s : Space A)
      → IsSound links s
      → a < length s.registry
      → b < length s.registry
      → create_link a b s ≡ record s { registry = update node_id (Graph.add b) a s.registry }
  unfolding create_link
  registry-create_link a b links s h k l =
      ap {B = Space A} (λ r. record s { registry = r }) (add_edge_lem a b s.registry h.ids k l)

  lists-create_link :
      (a b : ℕ) (links : List (ℕ × ℕ)) (s : Space A) (j : ℕ) (node : Node)
      → IsSound links s
      → get_elem? (update node_id (Graph.add b) a s.registry) j ≡ some node
      → IsAscending 0 node.list_vertex
        × ((i : ℕ) → elem i node.list_vertex ≡ linked j i ((a, b) ∷ links))
  lists-create_link a b links s j node h e =
      let at = sym (lookup-update (Graph.add b) a j a 0 s.registry h.ids (omega arith)) ∙ e in
      elim (Bool-cases (nat_eq j a)) [
        | inl d ↦ elim (Option-cases (get_elem? s.registry j)) [
          | inl n ↦ absurd (ground arith)
          | inr (old, n) ↦
              let o = h.lists j old n in
              let new : Graph.add b old ≡ node = some_injective (ground arith) in
              rw (← new) (
                add-IsAscending b old o.0,
                λ i. elem-add i b old o.0 ∙ rw d (ap (λ x. nat_eq i b || x) (o.1 i)),
              )
        ]
        | inr d ↦ let o = h.lists j node (rw d at at) in (o.0, λ i. rw d (o.1 i))
      ]

  bounded_cons :
      (a b : ℕ) (links : List (ℕ × ℕ)) (s : Space A) (i j : ℕ)
      → IsSound links s
      → a < length s.registry
      → b < length s.registry
      → linked j i ((a, b) ∷ links) ≡ true
      → (i < length s.registry) × (j < length s.registry)
  bounded_cons a b links s i j h k l e = elim (Bool-cases (nat_eq j a && nat_eq i b)) [
    | inl d ↦ ground arith
    | inr d ↦ h.bounded i j (rw d at e)
  ]

  pub IsSound-create_link :
      (a b : ℕ) (links : List (ℕ × ℕ)) (s : Space A)
      → IsSound links s
      → a < length s.registry
      → b < length s.registry
      → IsSound ((a, b) ∷ links) (create_link a b s)
  IsSound-create_link a b links s h k l =
      let same = length-update (Graph.add b) a s.registry in
      rw (registry-create_link a b links s h k l) (record {
        count = h.count ∙ sym same;
        ids = update-IsConsecutive (Graph.add b) a 0 s.registry (add-id b) h.ids;
        stored = λ j m. h.stored j (rw same at m);
        free = λ j m. h.free j (rw same at m);
        lists = λ j node e. lists-create_link a b links s j node h e;
        bounded = λ i j e. rw same (bounded_cons a b links s i j h k l e);
      })
