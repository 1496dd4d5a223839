-- ===== src/Api/Database.antt =====
-- A service with a connection to the database: its members beside the database, and the three
-- ways in which the handlers run a statement.
use stream_cloud.Prelude.{
  String, ℕ, ◌≡◌, refl, List, [], Option, none, get_elem?, or_else, Bool, true, ◌∷◌, ◌-◌, ◌&&◌,
  is_some, if◌then◌else◌,
}
use stream_cloud.Api.Action.{Result, ok, threw, undefined, Out, Action, ◌>>=◌, try_catch}
use stream_cloud.Api.Rpc.{at_key}
use stream_cloud.Api.Message.{storage_at, send, reply, guarded, guarded_after}
use stream_cloud.Api.Libraries.{Libraries}
use stream_cloud.Api.Effects.{Quiet, Keeps}

pub record Stored (L : Libraries) (X : Type 0) : Type 0 where
  pub db : L.Db
  pub members : X

module _ {L : Libraries} {M X : Type 0} where
  -- a throw leaves the database as it was
  abbrev after : Stored L X → Result L.Db → Out M (Stored L X) Unit
  after s (ok db) = record { result = ok tt; state = record s { db = db }; sent = [] }
  after s (threw what) = record { result = threw what; state = s; sent = [] }
  after s undefined = record { result = undefined; state = s; sent = [] }

  -- `db << sql << a << b;`
  unfoldable pub execute : String → List String → Action M (Stored L X) Unit
  execute sql bound s = after s (L.run s.db sql bound)

  -- `db << sql << a >> [&](…) { … };`
  unfoldable pub query : String → List String → Action M (Stored L X) (List (List (Option String)))
  query sql bound s = record { result = L.rows s.db sql bound; state = s; sent = [] }

  -- `db << sql << a >> number;`
  unfoldable pub query_number : String → List String → Action M (Stored L X) ℕ
  query_number sql bound s = record { result = L.number s.db sql bound; state = s; sent = [] }

  unfoldable pub set_members : (X → X) → Action M (Stored L X) Unit
  set_members f s = record { result = ok tt; state = record s { members = f s.members }; sent = [] }

  unfoldable pub members : Action M (Stored L X) X
  members s = record { result = ok s.members; state = s; sent = [] }

-- A column of a row as text; a null is read as an empty text.
abbrev pub column : ℕ → List (Option String) → String
column i row = or_else "" (or_else none (get_elem? row i))

-- Whether each row has a column with the last of `n` indices.
unfoldable pub all_have : ℕ → List (List (Option String)) → Bool
all_have n [] = true
all_have n (row ∷ rows) = is_some (get_elem? row (n - 1)) && all_have n rows

-- A callback with `n` parameters reads `n` columns of each row; to read one that the statement does
-- not have is undefined.
abbrev pub with_columns : ℕ → List (List (Option String)) → Result (List (List (Option String)))
with_columns n rows = if all_have n rows then ok rows else undefined

module _ {L : Libraries} {M X : Type 0} where
  pub Quiet-execute :
      (sql : String) (bound : List String) → Quiet {M = M} {S = Stored L X} (execute sql bound)
  unfolding execute
  Quiet-execute sql bound = record { at = λ s. go s (L.run s.db sql bound) }
    where
      go : (s : Stored L X) (r : Result L.Db) → (after {M = M} s r).sent ≡ []
      go s (ok db) = refl
      go s (threw what) = refl
      go s undefined = refl

  pub Quiet-query :
      (sql : String) (bound : List String) → Quiet {M = M} {S = Stored L X} (query sql bound)
  unfolding query
  Quiet-query sql bound = record { at = λ s. refl }

  pub Quiet-query_number :
      (sql : String) (bound : List String) → Quiet {M = M} {S = Stored L X} (query_number sql bound)
  unfolding query_number
  Quiet-query_number sql bound = record { at = λ s. refl }

  pub Quiet-set_members : (f : X → X) → Quiet {M = M} {S = Stored L X} (set_members f)
  unfolding set_members
  Quiet-set_members f = record { at = λ s. refl }

  pub Quiet-members : Quiet {M = M} {S = Stored L X} members
  unfolding members
  Quiet-members = record { at = λ s. refl }

-- A property of the members alone.
pub record OfMembers {L : Libraries} {X : Type 0} (P : X → Type 0) (s : Stored L X) : Type 0 where
  pub holds : P s.members

module _ {L : Libraries} {M X : Type 0} {P : X → Type 0} where
  pub Keeps-execute :
      (sql : String) (bound : List String) → Keeps {M = M} (OfMembers {L = L} P) (execute sql bound)
  unfolding execute
  Keeps-execute sql bound = record { at = λ s h. go s (L.run s.db sql bound) h }
    where
      go :
          (s : Stored L X) (r : Result L.Db) → OfMembers P s → OfMembers P (after {M = M} s r).state
      go s (ok db) h = record { holds = h.holds }
      go s (threw what) h = h
      go s undefined h = h

  pub Keeps-query :
      (sql : String) (bound : List String) → Keeps {M = M} (OfMembers {L = L} P) (query sql bound)
  unfolding query
  Keeps-query sql bound = record { at = λ s h. h }

  pub Keeps-query_number :
      (sql : String) (bound : List String)
      → Keeps {M = M} (OfMembers {L = L} P) (query_number sql bound)
  unfolding query_number
  Keeps-query_number sql bound = record { at = λ s h. h }

  pub Keeps-set_members :
      (f : X → X) → ((x : X) → P x → P (f x)) → Keeps {M = M} (OfMembers {L = L} P) (set_members f)
  unfolding set_members
  Keeps-set_members f k = record { at = λ s h. record { holds = k s.members h.holds } }

  pub Keeps-members : Keeps {M = M} (OfMembers {L = L} P) members
  unfolding members
  Keeps-members = record { at = λ s h. h }

pub ruleset quiet_database =
    (Quiet-execute, Quiet-query, Quiet-query_number, Quiet-set_members, Quiet-members)

pub ruleset keeps_database =
    (Keeps-execute, Keeps-query, Keeps-query_number, Keeps-set_members, Keeps-members)

-- Opens every statement of a handler.
unfoldable pub statements : Unit {0}
unfolding ◌>>=◌ try_catch send reply guarded guarded_after execute query query_number set_members
    members at_key storage_at
statements = tt
