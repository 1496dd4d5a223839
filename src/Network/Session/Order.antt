-- ===== src/Network/Session/Order.antt =====
-- The order in which a session writes.
use mathlib.Core.List.{append_assoc, append-nil}
use stream_cloud.Prelude.{
  Bool, true, false, ◌≡◌, ◌⊎◌, refl, sym, ap, ◌∙◌, inl, inr, Option, none, some, List, [], ◌∷◌,
  ◌++◌,
}
use stream_cloud.Network.Session.{write, on_write}

-- `_que`, and the text that the network library is writing.
pub record Session (T : Type 0) : Type 0 where
  pub que : List T
  pub writing : Option T

abbrev pub listed : {T : Type 0} → Option T → List T
listed none = []
listed (some t) = t ∷ []

-- What the library is writing, once a write may have been started.
abbrev pub if_started : {T : Type 0} → Option T → Option T → Option T
if_started none writing = writing
if_started (some t) writing = some t

-- The sessions that come about, with the texts that were posted, those whose write was started, and
-- whether a write has failed.
pub data Reached {T : Type 0} : List T → List T → Bool → Session T → Type 0 where
  opened : Reached [] [] false (record { que = []; writing = none })
  posted :
      (t : T) (posts starts : List T) (failed : Bool) (s : Session T)
      → Reached posts starts failed s
      → Reached
          (posts ++ (t ∷ []))
          (starts ++ listed (write t s.que).0)
          failed
          (record { que = (write t s.que).1; writing = if_started (write t s.que).0 s.writing })
  done :
      (t : T) (posts starts : List T) (s : Session T)
      → Reached posts starts false s
      → s.writing ≡ some t
      → Reached posts
          (starts ++ listed (on_write false s.que).0)
          false
          (record { que = (on_write false s.que).1; writing = (on_write false s.que).0 })
  broken :
      (t : T) (posts starts : List T) (s : Session T)
      → Reached posts starts false s
      → s.writing ≡ some t
      → Reached posts starts true (record { que = (on_write true s.que).1; writing = none })

module _ {T : Type 0} where
  -- What holds of a session: while no write has failed, the library is writing the front of the queue, and
  -- the texts behind it are those that were posted and not started; after that, some were not.
  abbrev pub IsOrdered : List T → List T → Bool → Session T → Type 0
  IsOrdered posts starts false s =
      ((s.writing ≡ none) × (s.que ≡ []) × (posts ≡ starts))
      ⊎ ((t : T) × (rest : List T) × (s.writing ≡ some t)
          × (s.que ≡ t ∷ rest)
          × (posts ≡ starts ++ rest))
  IsOrdered posts starts true s =
      (s.writing ≡ none)
      × ((t : T) × (rest : List T) × (s.que ≡ t ∷ rest) × (posts ≡ starts ++ rest))

  write-front : (t : T) (que : List T) → que ≡ [] → write t que ≡ (some t, t ∷ [])
  unfolding write
  write-front t que e = rw e refl

  write-behind :
      (t u : T) (que rest : List T) → que ≡ u ∷ rest → write t que ≡ (none, u ∷ rest ++ (t ∷ []))
  unfolding write
  write-behind t u que rest e = rw e refl

  on_write-last : (t : T) (que : List T) → que ≡ t ∷ [] → on_write false que ≡ (none, [])
  unfolding on_write
  on_write-last t que e = rw e refl

  on_write-more :
      (t u : T) (que rest : List T) → que ≡ t ∷ u ∷ rest → on_write false que ≡ (some u, u ∷ rest)
  unfolding on_write
  on_write-more t u que rest e = rw e refl

  some-none : {t : T} → some t ≡ none → ⊥
  some-none e = cc

  after_done :
      (posts starts : List T) (t : T) (rest que : List T)
      → que ≡ t ∷ rest
      → posts ≡ starts ++ rest
      → IsOrdered posts
          (starts ++ listed (on_write false que).0)
          false
          (record { que = (on_write false que).1; writing = (on_write false que).0 })
  after_done posts starts t [] que q p = rw (on_write-last t que q) (inl (refl, refl, p))
  after_done posts starts t (u ∷ rest) que q p =
      rw (on_write-more t u que rest q)
        (inr (u, rest, refl, refl, p ∙ sym (append_assoc starts (u ∷ []) rest)))

  after_write :
      (t : T) (posts starts rest : List T)
      → posts ≡ starts ++ rest
      → posts ++ (t ∷ []) ≡ (starts ++ []) ++ (rest ++ (t ∷ []))
  after_write t posts starts rest p =
      ap (λ l. l ++ (t ∷ [])) p
      ∙ append_assoc starts rest (t ∷ [])
      ∙ ap (λ l. l ++ (rest ++ (t ∷ []))) (sym (append-nil starts))

  -- While no write of a session has failed, the network library is writing the front of the queue and
  -- no other text, or the queue is empty and every text that was posted was started; and the texts
  -- were started in the order in which they were posted, each once. Once a write has failed, no
  -- write is started any more: the text that failed stays at the front of the queue, with those
  -- posted after it behind it.
  pub Reached-IsOrdered :
      (posts starts : List T) (failed : Bool) (s : Session T)
      → Reached posts starts failed s
      → IsOrdered posts starts failed s
  unfolding on_write
  Reached-IsOrdered posts starts failed s opened = inl (refl, refl, refl)
  Reached-IsOrdered posts starts failed s (posted t posts' starts' false s' r) =
      elim (Reached-IsOrdered posts' starts' false s' r) [
        | inl (w, q, p) ↦ rw (write-front t s'.que q) (
            inr (
              t,
              [],
              refl,
              refl,
              ap (λ l. l ++ (t ∷ [])) p ∙ sym (append-nil (starts' ++ (t ∷ []))),
            ))
        | inr (u, rest, w, q, p) ↦
            rw (write-behind t u s'.que rest q)
              (inr (u, rest ++ (t ∷ []), w, refl, after_write t posts' starts' rest p))
      ]
  Reached-IsOrdered posts starts failed s (posted t posts' starts' true s' r) =
      let (w, more) = Reached-IsOrdered posts' starts' true s' r in
      let (u, rest, q, p) = more in
      rw (write-behind t u s'.que rest q)
        (w, (u, rest ++ (t ∷ []), refl, after_write t posts' starts' rest p))
  Reached-IsOrdered posts starts failed s (done t posts' starts' s' r w) =
      elim (Reached-IsOrdered posts' starts' false s' r) [
        | inl (w', q, p) ↦ absurd (some-none (sym w ∙ w'))
        | inr (u, rest, w', q, p) ↦ after_done posts' starts' u rest s'.que q p
      ]
  Reached-IsOrdered posts starts failed s (broken t posts' starts' s' r w) =
      elim (Reached-IsOrdered posts' starts' false s' r) [
        | inl (w', q, p) ↦ absurd (some-none (sym w ∙ w'))
        | inr (u, rest, w', q, p) ↦ (refl, (u, rest, q, p))
      ]
