-- ===== src/Network/Http/Server/Answers.antt =====
-- What the HTTP server answers to a request.
use stream_cloud.Prelude.{
  String, ℕ, Bool, true, false, ◌&&◌, ◌≡◌, ◌⊎◌, refl, ap, nat_eq, inl, inr, Bool-cases,
  Option-cases, none, some, List, [], ◌∷◌, ◌++◌, arith, suc,
}
use stream_cloud.Api.Action.{Out, ok, threw, ◌>>=◌}
use stream_cloud.Core.Executor.{length}
use stream_cloud.Network.Http.Target.{Bytes, codes, is_legal}
use stream_cloud.Network.Http.Session.{Effect, opening, writing, send}
use stream_cloud.Network.Http.Server.{
  Opened, Request, Response, bad_request, is_known, page, serve, path_of, respond,
}

-- What is asked for when a response is put behind others.
abbrev pub started : {T : Type 0} → List T → T → List (Effect T)
started [] m = writing m ∷ []
started (_ ∷ _) m = []

-- The end of a handler that has put a response into the queue.
abbrev pub sends : {T : Type 0} → List T → T → List (Effect T) → Out (Effect T) (List T) Unit
sends items m before = record {
  result = ok tt;
  state = items ++ (m ∷ []);
  sent = before ++ started items m;
}

pub length-snoc :
    {T : Type 0} (items : List T) (m : T) → length (items ++ (m ∷ [])) ≡ suc (length items)
length-snoc [] m = refl
length-snoc (x ∷ items) m = rw (length-snoc items m) refl

not_one : (n : ℕ) → nat_eq (suc (suc n)) 1 ≡ false
not_one n = ground arith

pub send-sends : {T : Type 0} (m : T) (items : List T) → send m items ≡ sends items m []
unfolding send ◌>>=◌
send-sends m [] = refl
send-sends m (x ∷ items) = rw (length-snoc items m, not_one (length items)) refl

-- The method is known, and the target is legal.
abbrev pub is_good : Request → Bool
is_good req = is_known req.method && is_legal req.target

module _ (iequals : Bytes → Bytes → Bool) (open_file : Bytes → Opened) (what : String) where
  module _ (doc_root : Bytes) (req : Request) (items : List Response) where
    pub serve_unknown :
        is_known req.method ≡ false
        → serve iequals open_file what doc_root req items
          ≡ sends items (page req bad_request (codes "Unknown HTTP-method")) []
    unfolding serve
    serve_unknown e = rw e (send-sends (page req bad_request (codes "Unknown HTTP-method")) items)

    pub serve_illegal :
        is_known req.method ≡ true
        → is_legal req.target ≡ false
        → serve iequals open_file what doc_root req items
          ≡ sends items (page req bad_request (codes "Illegal request-target")) []
    unfolding serve
    serve_illegal e k =
        rw (e, k) (send-sends (page req bad_request (codes "Illegal request-target")) items)

    pub serve_hostless :
        is_known req.method ≡ true
        → is_legal req.target ≡ true
        → req.host ≡ none
        → serve iequals open_file what doc_root req items
          ≡ record { result = threw what; state = items; sent = [] }
    unfolding serve ◌>>=◌
    serve_hostless e k h = rw (e, k, h) refl

    pub serve_legal :
        (host : Bytes)
        → is_known req.method ≡ true
        → is_legal req.target ≡ true
        → req.host ≡ some host
        → (let path = path_of iequals open_file what doc_root host req.target in
            serve iequals open_file what doc_root req items
            ≡ sends items (respond iequals open_file what req path) (opening path ∷ []))
    unfolding serve ◌>>=◌
    serve_legal host e k h =
        let path = path_of iequals open_file what doc_root host req.target in
        rw (e, k, h)
          (ap (λ o. record { result = o.result; state = o.state; sent = opening path ∷ o.sent })
            (send-sends (respond iequals open_file what req path) items))

    -- The branches of `serve`.
    pub serve_outcome :
        ((is_good req ≡ false)
          × ((body : Bytes) × (serve iequals open_file what doc_root req items
                ≡ sends items (page req bad_request body) [])))
        ⊎ ((is_good req ≡ true)
            × (req.host ≡ none)
            × (serve iequals open_file what doc_root req items
                ≡ record { result = threw what; state = items; sent = [] }))
        ⊎ ((host : Bytes) × (is_good req ≡ true)
            × (req.host ≡ some host)
            × (let path = path_of iequals open_file what doc_root host req.target in
                serve iequals open_file what doc_root req items
                ≡ sends items (respond iequals open_file what req path) (opening path ∷ [])))
    serve_outcome = elim (Bool-cases (is_known req.method)) [
      | inr e ↦ inl (ground arith, (codes "Unknown HTTP-method", serve_unknown e))
      | inl e ↦ elim (Bool-cases (is_legal req.target)) [
        | inr k ↦ inl (ground arith, (codes "Illegal request-target", serve_illegal e k))
        | inl k ↦
            let good : is_good req ≡ true = ground arith in
            elim (Option-cases req.host) [
              | inl h ↦ inr (inl (good, h, serve_hostless e k h))
              | inr (host, h) ↦ inr (inr (host, good, h, serve_legal host e k h))
            ]
      ]
    ]
