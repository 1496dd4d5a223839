-- ===== src/Toy/JsonTree.antt =====
-- JSON documents as trees.
use stream_cloud.Prelude.{
  ℕ, String, Bool, true, false, ◌==◌, if◌then◌else◌, Option, none, some, List, [], ◌∷◌,
}

mutual
  pub data Value : Type 0 where
    null : Value
    text : String → Value
    flag : Bool → Value
    num : ℕ → Value
    obj : Fields → Value
    arr : Items → Value

  pub data Fields : Type 0 where
    end : Fields
    field : String → Value → Fields → Fields

  pub data Items : Type 0 where
    nil : Items
    cons : Value → Items → Items

unfoldable pub items_of : List Value → Items
items_of [] = nil
items_of (v ∷ vs) = cons v (items_of vs)

unfoldable pub list_of : Items → List Value
list_of nil = []
list_of (cons v vs) = v ∷ list_of vs

unfoldable pub as_string : Value → Option String
as_string (text s) = some s
as_string _ = none

unfoldable pub as_map : Value → Option Fields
as_map (obj m) = some m
as_map _ = none

unfoldable pub as_array : Value → Option (List Value)
unfolding list_of
as_array (arr vs) = some (list_of vs)
as_array _ = none

unfoldable pub is_null : Value → Bool
is_null null = true
is_null _ = false

unfoldable pub is_empty : Fields → Bool
is_empty end = true
is_empty (field k v m) = false

unfoldable pub find : Fields → String → Option Value
find end k = none
find (field j v m) k = if j == k then some v else find m k

unfoldable pub put : Fields → String → Value → Fields
put end k v = field k v end
put (field j w m) k v = if j == k then field k v m else field j w (put m k v)

unfoldable pub remove : Fields → String → Fields
remove end k = end
remove (field j w m) k = let rest = remove m k in if j == k then rest else field j w rest
