-- ===== src/Network/Http/Target.antt =====
-- How modules/stream-providers/src/http/listener.cpp reads the target and the host of a request. A
-- text is a list of bytes here.
use Prim.Native.Char.{code}
use stream_cloud.Prelude.{
  String, ℕ, Bool, true, false, ◌&&◌, ◌||◌, not, nat_eq, is_nil, if◌then◌else◌, or_else, Option,
  none, some, List, [], ◌∷◌, ◌++◌,
}

abbrev pub Bytes : Type 0
Bytes = List ℕ

-- the bytes of an ASCII text
abbrev pub codes : String → Bytes
codes String.[] = []
codes (String.◌∷◌ c s) = code c ∷ codes s

abbrev pub is_dot : ℕ → Bool
is_dot c = nat_eq c b'.'

abbrev pub same_bytes : Bytes → Bytes → Bool
same_bytes [] [] = true
same_bytes [] (_ ∷ _) = false
same_bytes (_ ∷ _) [] = false
same_bytes (c ∷ s) (d ∷ t) = nat_eq c d && same_bytes s t

-- `find("..") != npos`
unfoldable pub has_dots : Bytes → Bool
has_dots [] = false
has_dots (c ∷ []) = false
has_dots (c ∷ d ∷ rest) = (is_dot c && is_dot d) || has_dots (d ∷ rest)

-- "Request path must be absolute and not contain ".."."
unfoldable pub is_legal : Bytes → Bool
unfolding has_dots
is_legal [] = false
is_legal (c ∷ rest) = nat_eq c b'/' && not (has_dots (c ∷ rest))

-- `host.substr(0, host.find_first_of("."))`, if there is a dot
unfoldable pub before_dot : Bytes → Option Bytes
before_dot [] = none
before_dot (c ∷ rest) =
    let next = before_dot rest in
    if is_dot c then some [] else (elim next [ none ↦ none | some s ↦ some (c ∷ s) ])

-- the text from the last dot on, `rfind(".")`
unfoldable pub extension : Bytes → Option Bytes
extension [] = none
extension (c ∷ rest) =
    let next = extension rest in
    elim next [ some e ↦ some e | none ↦ if is_dot c then some (c ∷ rest) else none ]

-- `if (iequals(ext, …)) return …`, one after the other
abbrev pub types : List (String × String)
types =
    (".htm", "text/html")
    ∷ (".html", "text/html")
    ∷ (".php", "text/html")
    ∷ (".css", "text/css")
    ∷ (".txt", "text/plain")
    ∷ (".js", "application/javascript")
    ∷ (".json", "application/json")
    ∷ (".xml", "application/xml")
    ∷ (".swf", "application/x-shockwave-flash")
    ∷ (".flv", "video/x-flv")
    ∷ (".png", "image/png")
    ∷ (".jpe", "image/jpeg")
    ∷ (".jpeg", "image/jpeg")
    ∷ (".jpg", "image/jpeg")
    ∷ (".gif", "image/gif")
    ∷ (".bmp", "image/bmp")
    ∷ (".ico", "image/vnd.microsoft.icon")
    ∷ (".tiff", "image/tiff")
    ∷ (".tif", "image/tiff")
    ∷ (".svg", "image/svg+xml")
    ∷ (".svgz", "image/svg+xml")
    ∷ []

-- `iequals` of boost compares without regard to the case.
module _ (iequals : Bytes → Bytes → Bool) where
  unfoldable pub first_type : Bytes → List (String × String) → String
  first_type ext [] = "application/text"
  first_type ext ((e, type) ∷ rest) =
      let next = first_type ext rest in if iequals ext (codes e) then type else next

  unfoldable pub mime_type : Bytes → String
  unfolding first_type extension
  mime_type path = first_type (or_else [] (extension path)) types

-- the text without a separator at its end
unfoldable pub strip_separator : Bytes → Bytes
strip_separator [] = []
strip_separator (c ∷ []) = if nat_eq c b'/' then [] else c ∷ []
strip_separator (c ∷ d ∷ rest) = c ∷ strip_separator (d ∷ rest)

unfoldable pub path_cat : Bytes → Bytes → Bytes
unfolding strip_separator
path_cat base path = if is_nil base then path else strip_separator base ++ path

-- `root_path`, for the host
unfoldable pub root_path : Bytes → Bytes → Bytes
unfolding before_dot
root_path doc_root host = elim (before_dot host) [
  | none ↦ doc_root
  | some sub_domain ↦
      if same_bytes sub_domain (codes "manager")
      then doc_root ++ (codes "/" ++ sub_domain)
      else doc_root
]
