-- ===== src/Network/Http/Server/Inside.antt =====
-- Where the files lie that the HTTP server opens.
use mathlib.Core.List.{append_assoc}
use stream_cloud.Prelude.{
  String, ℕ, Bool, true, false, ◌==◌, ◌≡◌, ◌⊎◌, refl, sym, ap, ◌∙◌, nat_eq, inl, inr, Bool-cases,
  List, [], ◌∷◌, ◌++◌, All, arith, Option-cases,
}
use stream_cloud.Core.Executor.Office.{eq_of_nat_eq}
use stream_cloud.Network.Http.Target.{
  Bytes, codes, same_bytes, has_dots, is_legal, before_dot, strip_separator, path_cat, root_path,
  mime_type,
}
use stream_cloud.Network.Http.Session.{Effect, opening, writing, reading, closing}
use stream_cloud.Network.Http.Server.Answers.{started, serve_outcome}
use stream_cloud.Network.Http.Server.{
  Opened, Request, Response, serve, path_of, respond, page, bad_request,
}

-- A path below the directory that holds no "..".
abbrev pub IsInside : Bytes → Bytes → Type 0
IsInside doc_root path =
    (has_dots path ≡ false) × ((rest : Bytes) × (path ≡ strip_separator doc_root ++ (b'/' ∷ rest)))

abbrev pub OpensInside : Bytes → Effect Response → Type 0
OpensInside doc_root (opening path) = IsInside doc_root path
OpensInside doc_root (writing m) = Unit
OpensInside doc_root reading = Unit
OpensInside doc_root closing = Unit

has_dots_append :
    (s t : Bytes)
    → has_dots s ≡ false
    → has_dots (b'/' ∷ t) ≡ false
    → has_dots (s ++ (b'/' ∷ t)) ≡ false
unfolding has_dots
has_dots_append [] t h k = k
has_dots_append (c ∷ []) t h k = ground arith
has_dots_append (c ∷ d ∷ s) t h k =
    let next : has_dots (d ∷ s) ≡ false → has_dots (d ∷ s ++ (b'/' ∷ t)) ≡ false =
      λ e. has_dots_append (d ∷ s) t e k in
    ground arith

has_dots-strip_separator : (s : Bytes) → has_dots s ≡ false → has_dots (strip_separator s) ≡ false
unfolding has_dots strip_separator
has_dots-strip_separator [] h = refl
has_dots-strip_separator (c ∷ []) h = ground arith
has_dots-strip_separator (c ∷ d ∷ []) h = ground arith
has_dots-strip_separator (c ∷ d ∷ e ∷ s) h =
    let next = has_dots-strip_separator (d ∷ e ∷ s) in ground arith

same_bytes-eq : (s t : Bytes) → same_bytes s t ≡ true → s ≡ t
same_bytes-eq [] [] e = refl
same_bytes-eq [] (d ∷ t) e = absurd (ground arith)
same_bytes-eq (c ∷ s) [] e = absurd (ground arith)
same_bytes-eq (c ∷ s) (d ∷ t) e =
    let first : nat_eq c d ≡ true = ground arith in
    let rest : same_bytes s t ≡ true = ground arith in
    rw (eq_of_nat_eq c d first, same_bytes-eq s t rest) refl

-- What is left of a directory without its last separator, and that separator.
strip_separator-split :
    (s : Bytes) → (s ≡ strip_separator s) ⊎ (s ≡ strip_separator s ++ (b'/' ∷ []))
unfolding strip_separator
strip_separator-split [] = inl refl
strip_separator-split (c ∷ []) = elim (Bool-cases (nat_eq c b'/')) [
  | inl e ↦ rw e (inr (ap (λ d. d ∷ []) (eq_of_nat_eq c b'/' e)))
  | inr e ↦ rw e (inl refl)
]
strip_separator-split (c ∷ d ∷ s) = elim (strip_separator-split (d ∷ s)) [
  | inl e ↦ inl (ap (λ t. c ∷ t) e)
  | inr e ↦ inr (ap (λ t. c ∷ t) e)
]

strip_separator-append :
    (s t : Bytes) (c : ℕ) → strip_separator (s ++ (c ∷ t)) ≡ s ++ strip_separator (c ∷ t)
unfolding strip_separator
strip_separator-append [] t c = refl
strip_separator-append (d ∷ []) t c = refl
strip_separator-append (d ∷ e ∷ s) t c = ap (λ r. d ∷ r) (strip_separator-append (e ∷ s) t c)

below :
    (doc_root t : Bytes)
    → (rest : Bytes) × (doc_root ++ (b'/' ∷ t) ≡ strip_separator doc_root ++ (b'/' ∷ rest))
below doc_root t = elim (strip_separator-split doc_root) [
  | inl e ↦ (t, ap (λ s. s ++ (b'/' ∷ t)) e)
  | inr e ↦ (
    b'/' ∷ t,
    ap (λ s. s ++ (b'/' ∷ t)) e ∙ append_assoc (strip_separator doc_root) (b'/' ∷ []) (b'/' ∷ t),
  )
]

path_cat-strip_separator :
    (base t : Bytes)
    → has_dots base ≡ false
    → has_dots (b'/' ∷ t) ≡ false
    → (path_cat base (b'/' ∷ t) ≡ strip_separator base ++ (b'/' ∷ t))
      × (has_dots (path_cat base (b'/' ∷ t)) ≡ false)
unfolding path_cat
path_cat-strip_separator [] t h k = (refl, k)
path_cat-strip_separator (c ∷ s) t h k =
    (refl, has_dots_append (strip_separator (c ∷ s)) t (has_dots-strip_separator (c ∷ s) h) k)

root_path-cases :
    (doc_root host : Bytes)
    → (root_path doc_root host ≡ doc_root)
      ⊎ (root_path doc_root host ≡ doc_root ++ codes "/manager")
unfolding root_path
root_path-cases doc_root host = elim (Option-cases (before_dot host)) [
  | inl e ↦ rw (root_path, e) (inl refl)
  | inr (sub_domain, e) ↦
      rw (root_path, e)
        (elim (Bool-cases (same_bytes sub_domain (codes "manager"))) [
          | inl same ↦ rw (same) (
              inr (
                ap (λ s. doc_root ++ (codes "/" ++ s))
                  (same_bytes-eq sub_domain (codes "manager") same)))
          | inr other ↦ rw other (inl refl)
        ])
]

-- A target below the root of a host is below the directory.
path_cat-IsInside :
    (doc_root host t : Bytes)
    → has_dots doc_root ≡ false
    → has_dots (b'/' ∷ t) ≡ false
    → IsInside doc_root (path_cat (root_path doc_root host) (b'/' ∷ t))
unfolding has_dots strip_separator
path_cat-IsInside doc_root host t h k = elim (root_path-cases doc_root host) [
  | inl e ↦ let (p, q) = path_cat-strip_separator doc_root t h k in rw e (q, (t, p))
  | inr e ↦
      let name = codes "manager" in
      let base = doc_root ++ (b'/' ∷ name) in
      let (p, q) = path_cat-strip_separator base t (has_dots_append doc_root name h refl) k in
      let (rest, r) = below doc_root (name ++ (b'/' ∷ t)) in
      rw e (
        q,
        (
          rest,
          p
              ∙ ap (λ s. s ++ (b'/' ∷ t)) (strip_separator-append doc_root name b'/')
              ∙ append_assoc doc_root (b'/' ∷ name) (b'/' ∷ t)
              ∙ r,
        ),
      )
]

starts_slash :
    (s : Bytes) → is_legal s ≡ true → (t : Bytes) × (s ≡ b'/' ∷ t) × (has_dots (b'/' ∷ t) ≡ false)
unfolding is_legal
starts_slash [] e = absurd (ground arith)
starts_slash (c ∷ t) e =
    let slash : nat_eq c b'/' ≡ true = ground arith in
    let same = eq_of_nat_eq c b'/' slash in
    (t, ap (λ d. d ∷ t) same, sym (ap (λ d. has_dots (d ∷ t)) same) ∙ ground arith)

started-OpensInside :
    (doc_root : Bytes) (items : List Response) (m : Response)
    → All (OpensInside doc_root) (started items m)
started-OpensInside doc_root [] m = (tt, tt)
started-OpensInside doc_root (_ ∷ _) m = tt

module _ (iequals : Bytes → Bytes → Bool) (open_file : Bytes → Opened) (what : String) where
  path_of-IsInside :
      (doc_root host target : Bytes)
      → has_dots doc_root ≡ false
      → is_legal target ≡ true
      → IsInside doc_root (path_of iequals open_file what doc_root host target)
  unfolding path_of has_dots
  path_of-IsInside doc_root host target h legal =
      elim (Bool-cases (mime_type iequals target == "application/text")) [
        | inl e ↦ rw e (path_cat-IsInside doc_root host (codes "index.html") h refl)
        | inr e ↦
            let (t, same, k) = starts_slash target legal in
            rw (e, same) (path_cat-IsInside doc_root host t h k)
      ]

  -- If the directory of the server has no ".." in its name, then every file that the server opens is
  -- below that directory, and there is no ".." in its path, whatever the request is.
  pub serve-IsInside :
      (doc_root : Bytes) (req : Request) (items : List Response)
      → has_dots doc_root ≡ false
      → All (OpensInside doc_root) (serve iequals open_file what doc_root req items).sent
  serve-IsInside doc_root req items h =
      elim (serve_outcome iequals open_file what doc_root req items) [
        | inl (_, (body, e)) ↦ rw e (started-OpensInside doc_root items (page req bad_request body))
        | inr (inl (_, _, e)) ↦ rw e tt
        | inr (inr (host, good, _, e)) ↦
            let legal : is_legal req.target ≡ true = ground arith in
            let path = path_of iequals open_file what doc_root host req.target in
            rw e (
              path_of-IsInside doc_root host req.target h legal,
              started-OpensInside doc_root items (respond iequals open_file what req path),
            )
      ]
