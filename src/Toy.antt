-- ===== src/Toy.antt =====
-- Concrete libraries for the tests: JSON as a tree whose text is the tree itself, a database that
-- answers each statement from a table, and a `split` that gives each text its parts from a table.
pub mod JsonTree
pub mod Laws
use stream_cloud.Prelude.{
  ℕ, String, true, false, refl, Bool, ◌==◌, if◌then◌else◌, Option, none, some, List, [], ◌∷◌, Assoc,
  lookup, or_else, emplace, erase, assign, contains, set_emplace, set_erase,
}
use stream_cloud.Api.Action.{Result, ok}
use stream_cloud.Api.Libraries.{Json, Sqlite, Libraries}
use stream_cloud.Api.Rpc.{RequestMessage}
use stream_cloud.Api.Message.{Task, Context}
use stream_cloud.Api.Database.{statements}
use stream_cloud.Toy.JsonTree.{
  Value, Fields, null, text, flag, num, obj, arr, end, field, as_string, as_map, as_array, is_null,
  is_empty, find, put, remove, items_of, list_of,
}

abbrev pub json : Json
json = record {
  Value = Value;
  Map = Fields;
  Text = Fields;
  no_text = end;
  null = null;
  of_string = text;
  of_bool = flag;
  of_nat = num;
  of_map = obj;
  of_array = λ vs. arr (items_of vs);
  as_string = as_string;
  as_map = as_map;
  as_array = as_array;
  is_null = is_null;
  empty_map = end;
  is_empty = is_empty;
  find = find;
  put = put;
  remove = remove;
  read = ok;
  to_string = λ m. m;
  bad_get = "bad get";
  not_a_map = λ v. "not a map";
}

-- The rows of each statement. Updates leave the table as it is.
pub record Table : Type 0 where
  pub answers : Assoc (List (List (Option String)))
  pub numbers : Assoc ℕ

unfoldable pub table_rows : Table → String → List String → Result (List (List (Option String)))
table_rows t sql bound = ok (or_else [] (lookup sql t.answers))

unfoldable pub table_number : Table → String → List String → Result ℕ
table_number t sql bound = ok (or_else 0 (lookup sql t.numbers))

abbrev pub sqlite : Sqlite
sqlite = record { Db = Table; run = λ t sql bound. ok t; rows = table_rows; number = table_number }

-- The parts of the texts that the tests split.
abbrev pub parts : Assoc (List String)
parts =
    ("bob.pw", "bob" ∷ "pw" ∷ [])
    ∷ ("bob.", "bob" ∷ "" ∷ [])
    ∷ ("groups.add", "groups" ∷ "add" ∷ [])
    ∷ ("users.login", "users" ∷ "login" ∷ [])
    ∷ ("managers.connect", "managers" ∷ "connect" ∷ [])
    ∷ ("managers.disconnect", "managers" ∷ "disconnect" ∷ [])
    ∷ ("control.on", "control" ∷ "on" ∷ [])
    ∷ []

unfoldable pub split : String → List String
unfolding lookup
split s = or_else (s ∷ []) (lookup s parts)

abbrev pub libraries : Libraries
libraries = record { json = json; sqlite = sqlite; split = split }

abbrev pub everyone : Context
everyone = record {
  contacts = λ name. true;
  message_types = λ name command. true;
  out_of_range = "out of range";
}

abbrev pub request : String → Value → Fields → RequestMessage json
request method params metadata = record {
  id = num 7;
  method = method;
  params = params;
  metadata = metadata;
}

abbrev pub task : RequestMessage json → Assoc String → Task json
task r storage = record { request = r; transport_id = "t1"; storage = storage }

-- Opens what a run over these libraries calls.
unfoldable pub running : Unit {0}
unfolding statements items_of list_of as_string as_map as_array is_null is_empty find put remove
    table_rows table_number split lookup emplace erase assign contains set_emplace set_erase
running = tt
