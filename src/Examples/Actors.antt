-- ===== src/Examples/Actors.antt =====
-- The reactions of an actor, and the queue of a session, at concrete inputs.
use Prim.Native.String
use stream_cloud.Prelude.{String, ℕ, ◌≡◌, refl, true, false, none, or_else, List, [], ◌∷◌}
use stream_cloud.Api.Action.{ok}
use stream_cloud.Core.Actor.{Names, attached, skip, choose, initialize}
use stream_cloud.Core.Actor.Reactions.{
  or, first, standard, attached_all, attach_all, choose-attach_all,
}
use stream_cloud.Network.Session.{write, on_write}
use stream_cloud.Network.Session.Order.{
  Reached, opened, posted, broken, IsOrdered, Reached-IsOrdered,
}

-- the addresses are texts, and the length of a text is its hash
abbrev names : Names String String
names = record {
  hash = String.len;
  what = "at";
  name = λ a. a;
  types = λ a. [];
  channel_name = λ c. c;
}

-- handlers are numbers
abbrev handlers : List (String × ℕ)
handlers = ("on", 1) ∷ ("off", 2) ∷ ("up", 3) ∷ []

choose-attach_all_example :
    choose names "on" (attach_all names handlers (initialize names)).reactions
    ≡ ok (
        or_else skip
          (or (first names "on" (standard names)) (first names "on" (attached_all names handlers))))
choose-attach_all_example = choose-attach_all names "on" handlers refl

-- "up" has the hash of "on", which was attached before it
collision : or_else skip (first names "up" (attached_all names handlers)) ≡ attached 1
collision = refl

-- two texts are posted, and the write of the first fails
session-Reached :
    Reached {T = String}
      ("a" ∷ "b" ∷ [])
      ("a" ∷ [])
      true
      (record { que = "a" ∷ "b" ∷ []; writing = none })
unfolding write on_write
session-Reached = broken "a" _ _ _ (posted "b" _ _ false _ (posted "a" [] [] false _ opened)) refl

Reached-IsOrdered_example :
    IsOrdered {T = String}
      ("a" ∷ "b" ∷ [])
      ("a" ∷ [])
      true
      (record { que = "a" ∷ "b" ∷ []; writing = none })
Reached-IsOrdered_example = Reached-IsOrdered _ _ _ _ session-Reached
