-- ===== src/Network/Http/Server/Described.antt =====
-- What the responses of the HTTP server say, written out.
use stream_cloud.Prelude.{String, ℕ, Bool, true, false, ◌==◌, ◌≡◌, none, some, List, [], ◌∷◌, ◌++◌}
use stream_cloud.Api.Action.{Out, threw}
use stream_cloud.Network.Http.Target.{Bytes, codes, is_legal, mime_type, path_cat, root_path}
use stream_cloud.Network.Http.Session.{Effect, opening}
use stream_cloud.Network.Http.Server.{
  Opened, opened, no_such_file, failed, Request, Response, get, head, text, empty, file, ok_status,
  bad_request, not_found, internal_server_error, is_known,
}
use stream_cloud.Network.Http.Server.Answers.{sends}

-- The page that refuses a request.
abbrev pub refusal : Request → String → Response
refusal req why = record {
  status = bad_request;
  version = req.version;
  content_type = "text/html";
  keep_alive = req.keep_alive;
  body = text (codes why);
}

module _ (iequals : Bytes → Bytes → Bool) where
  -- The response to a request once its file was tried: a page that says that the resource is not
  -- there, or that an error occurred; for HEAD the type and the length of the file without a body, and
  -- for GET the file.
  pub data IsResponse (req : Request) (path : Bytes) : Opened → Response → Type 0 where
    missing : IsResponse req path no_such_file (record {
      status = not_found;
      version = req.version;
      content_type = "text/html";
      keep_alive = req.keep_alive;
      body = text (codes "The resource '" ++ (req.target ++ codes "' was not found."));
    })
    broken :
        (message : Bytes)
        → IsResponse req path (failed message) (record {
          status = internal_server_error;
          version = req.version;
          content_type = "text/html";
          keep_alive = req.keep_alive;
          body = text (codes "An error occurred: '" ++ (message ++ codes "'"));
        })
    without_body :
        (size : ℕ)
        → req.method ≡ head
        → IsResponse req path (opened size) (record {
          status = ok_status;
          version = req.version;
          content_type = mime_type iequals path;
          keep_alive = req.keep_alive;
          body = empty size;
        })
    with_file :
        (size : ℕ)
        → req.method ≡ get
        → IsResponse req path (opened size) (record {
          status = ok_status;
          version = req.version;
          content_type = mime_type iequals path;
          keep_alive = req.keep_alive;
          body = file path size;
        })

  -- The path of a target below the root of the host: of the application's page, if the target has no
  -- extension that is known, and its own otherwise.
  pub data IsPath (root target : Bytes) : Bytes → Type 0 where
    of_application :
        (mime_type iequals target == "application/text") ≡ true
        → IsPath root target (path_cat root (codes "/index.html"))
    of_file :
        (mime_type iequals target == "application/text") ≡ false
        → IsPath root target (path_cat root target)

  module _ (open_file : Bytes → Opened) (what : String) where
    -- What the server does with a request: what it opens, and the response that it puts behind the
    -- others.
    pub data IsServed (doc_root : Bytes) (req : Request) (items : List Response)
        : Out (Effect Response) (List Response) Unit → Type 0 where
      unknown :
          is_known req.method ≡ false
          → IsServed doc_root req items (sends items (refusal req "Unknown HTTP-method") [])
      illegal :
          is_known req.method ≡ true
          → is_legal req.target ≡ false
          → IsServed doc_root req items (sends items (refusal req "Illegal request-target") [])
      hostless :
          is_known req.method ≡ true
          → is_legal req.target ≡ true
          → req.host ≡ none
          → IsServed doc_root req items (record { result = threw what; state = items; sent = [] })
      answered :
          (host path : Bytes) (response : Response)
          → is_legal req.target ≡ true
          → req.host ≡ some host
          → IsPath (root_path doc_root host) req.target path
          → IsResponse req path (open_file path) response
          → IsServed doc_root req items (sends items response (opening path ∷ []))
