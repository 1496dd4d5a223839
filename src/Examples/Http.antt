-- ===== src/Examples/Http.antt =====
-- The HTTP server at concrete requests.
use stream_cloud.Prelude.{true, ◌≡◌, refl, none, some, [], ◌∷◌, ◌++◌, All}
use stream_cloud.Api.Action.{◌>>=◌}
use stream_cloud.Network.Http.Target.{Bytes, codes, same_bytes, has_dots}
use stream_cloud.Network.Http.Session.{on_read}
use stream_cloud.Network.Http.Server.{
  get, Request, Response, Opened, no_such_file, serve, not_found_page, path_of,
}
use stream_cloud.Network.Http.Server.Inside.{OpensInside, serve-IsInside}
use stream_cloud.Network.Http.Session.Bounds.{
  Live, run, read, next, Reached, IsServing, Reached-IsServing,
}

abbrev doc_root : Bytes
doc_root = codes "/srv/www/"

-- a file system with no files
abbrev no_files : Bytes → Opened
no_files path = no_such_file

abbrev script : Request
script = record {
  method = get;
  version = 11;
  keep_alive = true;
  target = codes "/app.js";
  host = some (codes "manager.example.org");
}

script-path :
    path_of same_bytes no_files "at" doc_root (codes "manager.example.org") script.target
    ≡ codes "/srv/www//manager/app.js"
unfolding path_of
script-path = refl

page-path :
    path_of same_bytes no_files "at" doc_root (codes "example") (codes "/some/where")
    ≡ codes "/srv/www/index.html"
unfolding path_of
page-path = refl

serve-IsInside_example :
    All (OpensInside doc_root) (serve same_bytes no_files "at" doc_root script []).sent
unfolding has_dots
serve-IsInside_example = serve-IsInside same_bytes no_files "at" doc_root script [] refl

-- the session after it has answered the request
abbrev answered_one : Live Response
answered_one = next 0 [] (on_read none (serve same_bytes no_files "at" doc_root script) [])

answered-Reached :
    Reached same_bytes no_files "at" doc_root (not_found_page script ∷ []) [] answered_one
unfolding serve on_read ◌>>=◌
answered-Reached = read script (not_found_page script) [] [] 0 _ run refl refl

Reached-IsServing_example :
    IsServing answered_one × (not_found_page script ∷ [] ≡ [] ++ answered_one.items)
Reached-IsServing_example =
    Reached-IsServing same_bytes no_files "at" doc_root (not_found_page script ∷ []) [] answered_one
      answered-Reached
