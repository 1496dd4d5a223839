-- ===== src/Network/Http/Server.antt =====
-- modules/stream-providers/src/http/listener.cpp, and the handlers of http_server.cpp that call it.
pub mod Answers
pub mod Described
pub mod Inside
use Prim.Native.String
use stream_cloud.Prelude.{
  String, ℕ, Bool, true, false, not, ◌||◌, ◌==◌, if◌then◌else◌, Option, List, [], ◌∷◌, ◌++◌,
  contains, set_emplace, set_erase,
}
use stream_cloud.Api.Action.{Result, ok, undefined, lift, or_throw, emit, ◌>>=◌, ◌>>◌}
use stream_cloud.Network.Http.Target.{Bytes, codes, is_legal, mime_type, path_cat, root_path}
use stream_cloud.Network.Http.Session.{Effect, opening, Step, send}

pub data Verb : Type 0 where
  get head other : Verb

pub record Request : Type 0 where
  pub method : Verb
  pub version : ℕ
  pub keep_alive : Bool
  pub target : Bytes
  pub host : Option Bytes

pub data Status : Type 0 where
  ok_status bad_request not_found internal_server_error : Status

-- A text, no body but the length of one, or a file.
pub data Content : Type 0 where
  text : Bytes → Content
  empty : ℕ → Content
  file : Bytes → ℕ → Content

pub record Response : Type 0 where
  pub status : Status
  pub version : ℕ
  pub content_type : String
  pub keep_alive : Bool
  pub body : Content

-- What comes of opening a file: its size, or an error.
pub data Opened : Type 0 where
  opened : ℕ → Opened
  no_such_file : Opened
  failed : Bytes → Opened

-- `trusted_url`
unfoldable pub add_trusted_url : String → List String → List String
unfolding set_emplace
add_trusted_url name trusted_url = set_emplace name trusted_url

unfoldable pub remove_trusted_url : String → List String → List String
unfolding set_erase
remove_trusted_url name trusted_url = set_erase name trusted_url

-- the address without its first byte, which is that of an ASCII character
unfoldable pub check_url : String → List String → Result Bool
unfolding contains
check_url String.[] trusted_url = undefined
check_url (String.◌∷◌ _ url) trusted_url = ok (contains url trusted_url)

-- the responses to `req`
module _ (req : Request) where
  abbrev pub page : Status → Bytes → Response
  page status body = record {
    status = status;
    version = req.version;
    content_type = "text/html";
    keep_alive = req.keep_alive;
    body = text body;
  }

  abbrev pub found : String → Content → Response
  found content_type body = record {
    status = ok_status;
    version = req.version;
    content_type = content_type;
    keep_alive = req.keep_alive;
    body = body;
  }

  abbrev pub not_found_page : Response
  not_found_page =
      page not_found (codes "The resource '" ++ (req.target ++ codes "' was not found."))

  abbrev pub server_error_page : Bytes → Response
  server_error_page what =
      page internal_server_error (codes "An error occurred: '" ++ (what ++ codes "'"))

abbrev pub is_known : Verb → Bool
is_known get = true
is_known head = true
is_known other = false

-- `iequals` is boost's, `open_file` the file system, and `what` the text of the exception of `at`.
module _ (iequals : Bytes → Bytes → Bool) (open_file : Bytes → Opened) (what : String) where
  -- `path`: every target that has no known extension stands for the page of the application
  unfoldable pub path_of : Bytes → Bytes → Bytes → Bytes
  unfolding mime_type path_cat root_path
  path_of doc_root host target =
      if mime_type iequals target == "application/text"
      then path_cat (root_path doc_root host) (codes "/index.html")
      else path_cat (root_path doc_root host) target

  -- the response once the file was tried
  unfoldable pub respond : Request → Bytes → Response
  unfolding mime_type
  respond req path = elim (open_file path) [
    | no_such_file ↦ not_found_page req
    | failed message ↦ server_error_page req message
    | opened size ↦ elim req.method [
      | head ↦ found req (mime_type iequals path) (empty size)
      | _ ↦ found req (mime_type iequals path) (file path size)
    ]
  ]

  -- `listener::operator()`, on the queue of the session
  unfoldable pub serve : Bytes → Request → Step Response
  unfolding is_legal path_of respond send
  serve doc_root req =
      if not (is_known req.method)
      then send (page req bad_request (codes "Unknown HTTP-method"))
      else if not (is_legal req.target)
      then send (page req bad_request (codes "Illegal request-target"))
      else (do
        host ← lift (or_throw what req.host)
        let path = path_of doc_root host req.target
        emit (opening path)
        send (respond req path))
