-- ===== src/Toy/Laws.antt =====
-- The trees satisfy the laws of the JSON interface.
use stream_cloud.Prelude.{
  String, ◌≡◌, refl, ◌==◌, eq_iff, if◌then◌else◌, none, some, List, [], ◌∷◌, arith, ap, true,
}
use stream_cloud.Api.Libraries.{JsonLaws}
use stream_cloud.Toy.{json}
use stream_cloud.Toy.JsonTree.{
  Value, Fields, null, end, field, find, put, remove, items_of, list_of, as_string, as_map,
  as_array, is_empty, is_null,
}

find-put_lem :
    (m : Fields) (k j : String) (v : Value)
    → find (put m k v) j ≡ (if k == j then some v else find m j)
unfolding find put
find-put_lem end k j v = refl
find-put_lem (field i w m) k j v =
    ground (arith, find-put_lem m k j v, eq_iff i k, eq_iff i j, eq_iff k j)

find-remove_lem :
    (m : Fields) (k j : String) → find (remove m k) j ≡ (if k == j then none else find m j)
unfolding find remove
find-remove_lem end k j = ground arith
find-remove_lem (field i w m) k j =
    ground (arith, find-remove_lem m k j, eq_iff i k, eq_iff i j, eq_iff k j)

list_of-items_of : (vs : List Value) → list_of (items_of vs) ≡ vs
unfolding list_of items_of
list_of-items_of [] = refl
list_of-items_of (v ∷ vs) = ap (λ l. v ∷ l) (list_of-items_of vs)

eq-null_of_is_null : (v : Value) → is_null v ≡ true → v ≡ null
unfolding is_null
eq-null_of_is_null null h = refl
eq-null_of_is_null _ h = cc

eq-end_of_is_empty : (m : Fields) → is_empty m ≡ true → m ≡ end
unfolding is_empty
eq-end_of_is_empty end h = refl
eq-end_of_is_empty _ h = cc

pub json_laws : JsonLaws json
unfolding find is_empty is_null as_string as_map as_array
json_laws = record {
  find-put = find-put_lem;
  find-remove = find-remove_lem;
  find-empty_map = λ k. refl;
  is_empty-empty_map = refl;
  eq-empty_of_is_empty = eq-end_of_is_empty;
  eq-null_of_is_null = eq-null_of_is_null;
  is_null-null = refl;
  as_string-of_string = λ s. refl;
  as_map-of_map = λ m. refl;
  as_array-of_array = λ vs. ap some (list_of-items_of vs);
  as_string-null = refl;
  as_map-null = refl;
}
