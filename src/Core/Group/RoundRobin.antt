-- ===== src/Core/Group/RoundRobin.antt =====
-- The turns that the actors of a group take.
use stream_cloud.Prelude.{
  String, ℕ, zero, suc, ◌≡◌, ◌<◌, refl, sym, ap, ◌∙◌, some, List, [], ◌∷◌, ◌++◌, ◌+◌, get_elem?,
  true, Bool, arith,
}
use mathlib.Core.List.{append_assoc}
use stream_cloud.Api.Action.{Action, Out, ok, pure, ◌>>=◌, ◌>>◌}
use stream_cloud.Core.Executor.{length}
use stream_cloud.Core.Space
use stream_cloud.Core.Group.{Grouped, passed, Delivery, send, next_cursor}

-- The messages `ms`, each to the actor at its place.
abbrev pub paired : {A M : Type 0} → List A → List M → List (Delivery A M)
paired [] ms = []
paired (a ∷ layer) [] = []
paired (a ∷ layer) (m ∷ ms) = record { to = a; letter = passed m } ∷ paired layer ms

get_elem-append :
    {A : Type 0} (pre post : List A) (a : A) → get_elem? (pre ++ a ∷ post) (length pre) ≡ some a
get_elem-append [] post a = refl
get_elem-append (x ∷ pre) post a = get_elem-append pre post a

length-append : {A : Type 0} (pre post : List A) → length (pre ++ post) ≡ length pre + length post
length-append [] post = omega arith
length-append (x ∷ pre) post = let h = length-append pre post in omega arith

next_cursor_last :
    {A : Type 0} (pre : List A) (a : A) → next_cursor (length (pre ++ a ∷ [])) (length pre) ≡ 0
next_cursor_last pre a = ground (arith, length-append pre (a ∷ []))

next_cursor_more :
    {A : Type 0} (pre post : List A) (a b : A)
    → next_cursor (length (pre ++ a ∷ b ∷ post)) (length pre) ≡ suc (length pre)
next_cursor_more pre post a b = ground (arith, length-append pre (a ∷ b ∷ post))

next_cursor_small : (size c : ℕ) → c < size → next_cursor size c < size
next_cursor_small size c h = ground arith

found : {A : Type 0} (j : ℕ) (l : List A) → j < length l → (a : A) × (get_elem? l j ≡ some a)
found j [] h = absurd (omega arith)
found zero (x ∷ l) h = (x, refl)
found (suc j) (x ∷ l) h = found j l (omega arith)

abbrev pub at_cursor : {A : Type 0} → ℕ → Grouped A → Grouped A
at_cursor c s = record s { group = record s.group { cursor = c } }

module _ {A M : Type 0} (what : String) where
  -- Sends of one message after the other.
  unfoldable pub send_each : List M → Action (Delivery A M) (Grouped A) Unit
  send_each [] = pure tt
  send_each (m ∷ ms) = let next = send_each ms in (do send what m; next)

  send_lem :
      (m : M) (s : Grouped A) (layer : List A) (a : A)
      → Space.current_layer s.group.entry_point s.space ≡ some layer
      → get_elem? layer s.group.cursor ≡ some a
      → send what m s ≡ record {
        result = ok true;
        state = at_cursor (next_cursor (length layer) s.group.cursor) s;
        sent = record { to = a; letter = passed m } ∷ [];
      }
  unfolding send ◌>>=◌
  send_lem m s layer a e d = ground arith

  send_each_cons :
      (m : M) (ms : List M) (s next : Grouped A) (d : Delivery A M)
      → send what m s ≡ record { result = ok true; state = next; sent = d ∷ [] }
      → send_each (m ∷ ms) s ≡ record {
        result = (send_each ms next).result;
        state = (send_each ms next).state;
        sent = d ∷ (send_each ms next).sent;
      }
  unfolding send_each ◌>>=◌
  send_each_cons m ms s next d e = rw (send_each, e) refl

  send_turn :
      (k : ℕ) (pre post : List A) (a : A) (m : M) (ms : List M) (s : Grouped A)
      → Space.current_layer s.group.entry_point s.space ≡ some (pre ++ a ∷ post)
      → s.group.cursor ≡ length pre
      → next_cursor (length (pre ++ a ∷ post)) (length pre) ≡ k
      → send_each (m ∷ ms) s ≡ record {
        result = (send_each ms (at_cursor k s)).result;
        state = (send_each ms (at_cursor k s)).state;
        sent = record { to = a; letter = passed m } ∷ (send_each ms (at_cursor k s)).sent;
      }
  send_turn k pre post a m ms s e c n = send_each_cons m ms s _ _ (
      send_lem m s (pre ++ a ∷ post) a e (rw c (get_elem-append pre post a))
      ∙ ap {B = Out (Delivery A M) (Grouped A) Bool}
          (λ c'. record {
            result = ok true;
            state = at_cursor c' s;
            sent = record { to = a; letter = passed m } ∷ [];
          })
          (rw c n))

  -- The turns that are left of a round.
  rest_of_round :
      (pre post : List A) (a : A) (m : M) (ms : List M) (s : Grouped A)
      → Space.current_layer s.group.entry_point s.space ≡ some (pre ++ a ∷ post)
      → s.group.cursor ≡ length pre
      → length ms ≡ length post
      → send_each (m ∷ ms) s
        ≡ record { result = ok tt; state = at_cursor 0 s; sent = paired (a ∷ post) (m ∷ ms) }
  unfolding send_each pure
  rest_of_round pre [] a m [] s e c k = send_turn 0 pre [] a m [] s e c (next_cursor_last pre a)
  rest_of_round pre [] a m (m' ∷ ms) s e c k = absurd (omega arith)
  rest_of_round pre (b ∷ post) a m [] s e c k = absurd (omega arith)
  rest_of_round pre (b ∷ post) a m (m' ∷ ms) s e c k =
      let next = at_cursor (suc (length pre)) s in
      send_turn (suc (length pre)) pre (b ∷ post) a m (m' ∷ ms) s e c
        (next_cursor_more pre post a b)
      ∙ ap {B = Out (Delivery A M) (Grouped A) Unit}
          (λ o. record {
            result = o.result;
            state = o.state;
            sent = record { to = a; letter = passed m } ∷ o.sent;
          })
          (rest_of_round (pre ++ a ∷ []) post b m' ms next
            (e ∙ ap some (sym (append_assoc pre (a ∷ []) (b ∷ post))))
            (sym (length-append pre (a ∷ []) ∙ (omega arith))) (omega arith))

  -- Of a group with actors whose cursor is at its first actor, as many sends as it has actors give each
  -- actor one message, in order, and the cursor is at the first actor again; no index is out of
  -- range.
  pub send_each-round :
      (layer : List A) (ms : List M) (s : Grouped A)
      → Space.current_layer s.group.entry_point s.space ≡ some layer
      → s.group.cursor ≡ 0
      → length ms ≡ length layer
      → send_each ms s ≡ record { result = ok tt; state = s; sent = paired layer ms }
  unfolding send_each pure
  send_each-round [] [] s e c k = refl
  send_each-round [] (m ∷ ms) s e c k = absurd (omega arith)
  send_each-round (a ∷ layer) [] s e c k = absurd (omega arith)
  send_each-round (a ∷ layer) (m ∷ ms) s e c k =
      rest_of_round [] layer a m ms s e c (omega arith)
      ∙ ap {B = Out (Delivery A M) (Grouped A) Unit}
          (λ c'. record {
            result = ok tt;
            state = at_cursor c' s;
            sent = paired (a ∷ layer) (m ∷ ms);
          })
          (sym c)

  -- A send of a group with actors, whose cursor is one of them, reaches that actor and leaves the
  -- cursor at an actor.
  pub send_bounds :
      (m : M) (s : Grouped A) (layer : List A)
      → Space.current_layer s.group.entry_point s.space ≡ some layer
      → s.group.cursor < length layer
      → (a : A) × (get_elem? layer s.group.cursor ≡ some a)
        × ((send what m s).result ≡ ok true)
        × ((send what m s).sent ≡ record { to = a; letter = passed m } ∷ [])
        × ((send what m s).state.group.cursor < length layer)
        × ((send what m s).state.space ≡ s.space)
  send_bounds m s layer e h =
      let (a, d) = found s.group.cursor layer h in
      rw (send_lem m s layer a e d)
        (a, d, refl, refl, next_cursor_small (length layer) s.group.cursor h, refl)
