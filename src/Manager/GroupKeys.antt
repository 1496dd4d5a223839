-- ===== src/Manager/GroupKeys.antt =====
-- The lists of group keys that connections.cpp and subscriptions.cpp hand to a statement.
use Prim.Native.String
use mathlib.Core.List.{foldl}
use stream_cloud.Prelude.{String, ◌==◌, if◌then◌else◌, List, [], ◌∷◌}
use stream_cloud.Api.Action.{Result, ok}
use stream_cloud.Api.Libraries.{Json}
use stream_cloud.Api.Rpc.{get_string, ◌>>=◌}

-- `for (auto const &v : values) out.emplace_back(v.as<std::string>());`
unfoldable pub strings_of : (J : Json) → List J.Value → Result (List String)
strings_of J [] = ok []
strings_of J (v ∷ vs) = do s ← get_string J v; rest ← strings_of J vs; ok (s ∷ rest)

abbrev pub join_step : String → String → String
join_step ss s = if ss == "" then s else String.◌++◌ (String.◌++◌ ss ",") s

-- The text that is bound to `in (?)`: the keys with commas between them.
unfoldable pub accumulate : List String → String
accumulate groups = foldl join_step "" groups
