-- ===== src/Api/Libraries.antt =====
-- The libraries that the services call, as an interface: the JSON library of
-- modules/stream-api/src/json (a copy of jeayeson), sqlite behind sqlite_modern_cpp, and
-- boost::algorithm::split. The laws that a theorem needs of them are its hypotheses.
use stream_cloud.Prelude.{String, ℕ, Bool, true, ◌≡◌, List, Option, none, some, ◌==◌, if◌then◌else◌}
use stream_cloud.Api.Action.{Result}

pub record Json : Type 1 where
  pub Value : Type 0
  pub Map : Type 0
  -- the text of a web socket: a serialized document, or the empty text of a new one
  pub Text : Type 0
  pub no_text : Text
  pub null : Value
  pub of_string : String → Value
  pub of_bool : Bool → Value
  pub of_nat : ℕ → Value
  pub of_map : Map → Value
  pub of_array : List Value → Value
  -- `none` where `as<T>` throws `boost::bad_get`
  pub as_string : Value → Option String
  pub as_map : Value → Option Map
  pub as_array : Value → Option (List Value)
  pub is_null : Value → Bool
  pub empty_map : Map
  pub is_empty : Map → Bool
  pub find : Map → String → Option Value
  pub put : Map → String → Value → Map
  pub remove : Map → String → Map
  pub read : Text → Result Map
  pub to_string : Map → Text
  -- the texts of the exceptions
  pub bad_get : String
  pub not_a_map : Value → String

-- Documented behaviour of the maps and of the conversions.
pub record JsonLaws (J : Json) : Type 0 where
  pub find-put :
      (m : J.Map) (k j : String) (v : J.Value)
      → J.find (J.put m k v) j ≡ (if k == j then some v else J.find m j)
  pub find-remove :
      (m : J.Map) (k j : String) → J.find (J.remove m k) j ≡ (if k == j then none else J.find m j)
  pub find-empty_map : (k : String) → J.find J.empty_map k ≡ none
  pub is_empty-empty_map : J.is_empty J.empty_map ≡ true
  pub eq-empty_of_is_empty : (m : J.Map) → J.is_empty m ≡ true → m ≡ J.empty_map
  pub is_null-null : J.is_null J.null ≡ true
  pub eq-null_of_is_null : (v : J.Value) → J.is_null v ≡ true → v ≡ J.null
  pub as_string-of_string : (s : String) → J.as_string (J.of_string s) ≡ some s
  pub as_map-of_map : (m : J.Map) → J.as_map (J.of_map m) ≡ some m
  pub as_array-of_array : (vs : List J.Value) → J.as_array (J.of_array vs) ≡ some vs
  pub as_string-null : J.as_string J.null ≡ none
  pub as_map-null : J.as_map J.null ≡ none

-- A database connection. A statement is its SQL text with the values bound to its `?` marks.
pub record Sqlite : Type 1 where
  pub Db : Type 0
  -- a statement that returns no rows
  pub run : Db → String → List String → Result Db
  -- a statement whose rows go to a callback; a null column is `none`
  pub rows : Db → String → List String → Result (List (List (Option String)))
  -- a statement whose one number is extracted into an `int`
  pub number : Db → String → List String → Result ℕ

pub record Libraries : Type 1 where
  pub json : Json
  pub open json use *
  pub sqlite : Sqlite
  pub open sqlite use *
  -- boost::algorithm::split(out, text, boost::is_any_of("."))
  pub split : String → List String
