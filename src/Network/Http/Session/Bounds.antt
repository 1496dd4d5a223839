-- ===== src/Network/Http/Session/Bounds.antt =====
-- What a session of the HTTP server reads, keeps and writes.
use mathlib.Core.List.{append_assoc, append_cancel_left}
use stream_cloud.Prelude.{
  String, ℕ, suc, ◌+◌, ◌≤◌, Bool, false, ◌≡◌, refl, sym, ap, ◌∙◌, if◌then◌else◌, Bool-cases, inl,
  inr, Option, none, some, List, [], ◌∷◌, ◌++◌, arith, map,
}
use stream_cloud.Api.Action.{Out, ok, ◌>>=◌}
use stream_cloud.Core.Executor.{length}
use stream_cloud.Network.Http.Target.{Bytes}
use stream_cloud.Network.Http.Session.{
  Effect, opening, writing, reading, closing, Step, is_full, on_read, on_write,
}
use stream_cloud.Network.Http.Server.{Opened, Request, Response, serve, path_of}
use stream_cloud.Network.Http.Server.Answers.{sends, started, length-snoc, serve_outcome}

-- The queue of a session, the reads that the library has been asked for and has not reported, and the
-- responses that it is writing.
pub record Live (T : Type 0) : Type 0 where
  pub items : List T
  pub reads : ℕ
  pub writes : List T

module _ {T : Type 0} where
  abbrev pub count_reads : List (Effect T) → ℕ
  count_reads [] = 0
  count_reads (reading ∷ rest) = suc (count_reads rest)
  count_reads (opening _ ∷ rest) = count_reads rest
  count_reads (writing _ ∷ rest) = count_reads rest
  count_reads (closing ∷ rest) = count_reads rest

  abbrev pub written_of : List (Effect T) → List T
  written_of [] = []
  written_of (writing m ∷ rest) = m ∷ written_of rest
  written_of (opening _ ∷ rest) = written_of rest
  written_of (reading ∷ rest) = written_of rest
  written_of (closing ∷ rest) = written_of rest

  -- The session after a handler, which has added to the reads and the writes that were left.
  abbrev pub next : ℕ → List T → Out (Effect T) (List T) Unit → Live T
  next reads writes o = record {
    items = o.state;
    reads = reads + count_reads o.sent;
    writes = writes ++ written_of o.sent;
  }

  abbrev pub first : List T → List T
  first [] = []
  first (m ∷ _) = m ∷ []

  abbrev pub full_of : List T → ℕ
  full_of items = if is_full items then 1 else 0

  -- Either a read is under way or the queue is full, and never both; the queue holds at most eight
  -- responses, and the first of them is being written.
  abbrev pub IsServing : Live T → Type 0
  IsServing l = (l.reads + full_of l.items ≡ 1) × (length l.items ≤ 8) × (l.writes ≡ first l.items)

  abbrev tried : Option Bytes → List (Effect T)
  tried none = []
  tried (some path) = opening path ∷ []

  asked : Bool → List (Effect T)
  asked full = if full then [] else reading ∷ []

  on_read_answered :
      (handle : Step T) (items : List T) (m : T) (before : List (Effect T))
      → handle items ≡ sends items m before
      → on_read none handle items ≡ record {
        result = ok tt;
        state = items ++ (m ∷ []);
        sent = (before ++ started items m) ++ asked (is_full (items ++ (m ∷ [])));
      }
  unfolding on_read ◌>>=◌ asked
  on_read_answered handle items m before e = elim (Bool-cases (is_full (items ++ (m ∷ [])))) [
    | inl f ↦ rw (e, f) refl
    | inr f ↦ rw (e, f) refl
  ]

  after_read :
      (handle : Step T) (items : List T) (m : T) (o : Option Bytes) (n : ℕ)
      → handle items ≡ sends items m (tried o)
      → IsServing (record { items = items; reads = suc n; writes = first items })
      → IsServing (next n (first items) (on_read none handle items))
  unfolding asked is_full
  after_read handle [] m none n e (r, b, w) = rw (on_read_answered handle [] m [] e) (ground arith)
  after_read handle [] m (some p) n e (r, b, w) =
      rw (on_read_answered handle [] m (opening p ∷ []) e) (ground arith)
  after_read handle (x ∷ items) m none n e (r, b, w) =
      rw (on_read_answered handle (x ∷ items) m [] e) (ground (arith, length-snoc items m))
  after_read handle (x ∷ items) m (some p) n e (r, b, w) =
      rw (on_read_answered handle (x ∷ items) m (opening p ∷ []) e)
        (ground (arith, length-snoc items m))

  on_write_front :
      (m : T) (rest : List T)
      → on_write none false (m ∷ rest) ≡ record {
        result = ok tt;
        state = rest;
        sent = map writing (first rest) ++ (if is_full (m ∷ rest) then reading ∷ [] else []);
      }
  unfolding on_write ◌>>=◌
  on_write_front m [] = refl
  on_write_front m (x ∷ rest) = elim (Bool-cases (is_full (m ∷ x ∷ rest))) [
    | inl f ↦ rw f refl
    | inr f ↦ rw f refl
  ]

  after_write :
      (m : T) (rest : List T) (reads : ℕ)
      → IsServing (record { items = m ∷ rest; reads = reads; writes = m ∷ [] })
      → IsServing (next reads [] (on_write none false (m ∷ rest)))
  unfolding is_full
  after_write m [] reads (r, b, w) = rw (on_write_front m []) (ground arith)
  after_write m (x ∷ rest) reads (r, b, w) = rw (on_write_front m (x ∷ rest)) (ground arith)

same : {T : Type 0} {a b : T} (items : List T) → items ++ (a ∷ []) ≡ items ++ (b ∷ []) → a ≡ b
same {a = a} {b = b} items e = let one = append_cancel_left items (a ∷ []) (b ∷ []) e in cc

longer : {T : Type 0} (items : List T) (m : T) → items ≡ items ++ (m ∷ []) → ⊥
longer items m e =
    let n : length items ≡ suc (length items) = ap length e ∙ length-snoc items m in omega arith

wrote_front :
    {T : Type 0} (m : T) (more answered written items : List T) (reads : ℕ)
    → reads + full_of items ≡ 1
    → length items ≤ 8
    → first items ≡ m ∷ more
    → answered ≡ written ++ items
    → (let l = next reads more (on_write none false items) in
        IsServing l × (answered ≡ (written ++ (m ∷ [])) ++ l.items))
wrote_front m more answered written [] reads r b f order = absurd (let bad = f in cc)
wrote_front m more answered written (x ∷ rest) reads r b f order =
    let x_m : x ≡ m = cc in
    let none_left : more ≡ [] = cc in
    rw⁻¹ x_m (
      rw none_left (
        after_write x rest reads (r, b, refl),
        order
            ∙ sym (append_assoc written (x ∷ []) rest)
            ∙ ap (λ o. (written ++ (x ∷ [])) ++ o.state) (sym (on_write_front x rest)),
      ))

module _ (iequals : Bytes → Bytes → Bool) (open_file : Bytes → Opened) (what : String)
    (doc_root : Bytes) where
  -- What the server makes of a request.
  abbrev pub handler : Request → Step Response
  handler req = serve iequals open_file what doc_root req

  -- The sessions that come about as long as no operation fails and no response asks to close, with the
  -- responses that were made and those that were written: `run` asks for a read; a read ends with a
  -- request that is answered; a write ends.
  pub data Reached : List Response → List Response → Live Response → Type 0 where
    run : Reached [] [] (record { items = []; reads = 1; writes = [] })
    read :
        (req : Request) (m : Response) (answered written : List Response) (n : ℕ)
        (l : Live Response)
        → Reached answered written l
        → l.reads ≡ suc n
        → (handler req l.items).state ≡ l.items ++ (m ∷ [])
        → Reached
            (answered ++ (m ∷ []))
            written
            (next n l.writes (on_read none (handler req) l.items))
    wrote :
        (m : Response) (more answered written : List Response) (l : Live Response)
        → Reached answered written l
        → l.writes ≡ m ∷ more
        → Reached answered (written ++ (m ∷ [])) (next l.reads more (on_write none false l.items))

  handler-sends :
      (req : Request) (items : List Response) (m : Response)
      → (handler req items).state ≡ items ++ (m ∷ [])
      → (o : Option Bytes) × (handler req items ≡ sends items m (tried o))
  handler-sends req items m h = elim (serve_outcome iequals open_file what doc_root req items) [
    | inl (_, (body, e)) ↦
        (none, e ∙ ap (λ x. sends items x []) (same items (sym (ap (λ o. o.state) e) ∙ h)))
    | inr (inl (_, _, e)) ↦ absurd (longer items m (sym (ap (λ o. o.state) e) ∙ h))
    | inr (inr (host, _, _, e)) ↦
        let path = path_of iequals open_file what doc_root host req.target in
        (
          some path,
          e
              ∙ ap (λ x. sends items x (opening path ∷ []))
                  (same items (sym (ap (λ o. o.state) e) ∙ h)),
        )
  ]

  -- As long as no operation of a session fails, no response asks to close, and each request is
  -- answered: the responses are written in the order in which they were made, each once; the queue
  -- holds those that are not written yet, at most eight; the first of them is being written, and no
  -- other; and a read is under way if and only if the queue is not full, and never two.
  pub Reached-IsServing :
      (answered written : List Response) (l : Live Response)
      → Reached answered written l
      → IsServing l × (answered ≡ written ++ l.items)
  unfolding is_full
  Reached-IsServing answered written l run = ((refl, omega arith, refl), refl)
  Reached-IsServing answered written l (read req m answered' written' n l' r k h) =
      let (o, e) = handler-sends req l'.items m h in
      let ((reads, bound, w), order) = Reached-IsServing answered' written' l' r in
      (
        rw w (after_read (handler req) l'.items m o n e (rw⁻¹ k reads, bound, refl)),
        ap (λ s. s ++ (m ∷ [])) order
            ∙ append_assoc written' l'.items (m ∷ [])
            ∙ ap (λ o. written' ++ o.state)
                (sym (on_read_answered (handler req) l'.items m (tried o) e)),
      )
  Reached-IsServing answered written l (wrote m more answered' written' l' r k) =
      let ((reads, bound, w), order) = Reached-IsServing answered' written' l' r in
      wrote_front m more answered' written' l'.items l'.reads reads bound (sym w ∙ k) order
