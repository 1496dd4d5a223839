-- ===== src/Core/Actor/Reactions.antt =====
-- Which reaction an actor takes for a command.
use stream_cloud.Prelude.{
  String, true, false, ◌≡◌, refl, sym, ap, ◌∙◌, if◌then◌else◌, or_else, Option, none, some, List,
  [], ◌∷◌, ◌++◌, map, arith, Option-cases, Bool-cases, inl, inr,
}
use stream_cloud.Api.Action.{ok}
use stream_cloud.Core.Executor.Office.{nat_eq_refl, eq_of_nat_eq}
use stream_cloud.Core.Actor.{
  Names, Reaction, sync_contacts, skip, add_channel, attached, LocalActor, same_action,
  find_reaction, choose, add, initialize, attach,
}

-- The first that there is.
abbrev pub or : {A : Type 0} → Option A → Option A → Option A
or none o = o
or (some a) o = some a

or_assoc : {A : Type 0} (o p q : Option A) → or (or o p) q ≡ or o (or p q)
or_assoc none p q = refl
or_assoc (some a) p q = refl

or_none : {A : Type 0} (o : Option A) → or o none ≡ o
or_none none = refl
or_none (some a) = refl

module _ {A C H : Type 0} (names : Names A C) where
  abbrev pub match_one : String → String → Reaction H → Option (Reaction H)
  match_one command k r = if same_action names k command then some r else none

  find_reaction_cons :
      (command k : String) (r : Reaction H) (rest : List (String × Reaction H))
      → find_reaction names command ((k, r) ∷ rest)
        ≡ or (match_one command k r) (find_reaction names command rest)
  unfolding find_reaction
  find_reaction_cons command k r rest = ground arith

  find_reaction-append :
      (command : String) (k l : List (String × Reaction H))
      → find_reaction names command (k ++ l)
        ≡ or (find_reaction names command k) (find_reaction names command l)
  unfolding find_reaction
  find_reaction-append command [] l = refl
  find_reaction-append command ((n, r) ∷ k) l = ground (arith, find_reaction-append command k l)

  find_reaction-same :
      (a b : String) (l : List (String × Reaction H))
      → same_action names a b ≡ true
      → find_reaction names a l ≡ find_reaction names b l
  unfolding find_reaction
  find_reaction-same a b [] e = refl
  find_reaction-same a b ((k, r) ∷ l) e =
      rw (eq_of_nat_eq (names.hash a) (names.hash b) e, find_reaction-same a b l e) refl

  add_new :
      (name : String) (r : Reaction H) (l : List (String × Reaction H))
      → find_reaction names name l ≡ none
      → (add names name r l).1 ≡ l ++ ((name, r) ∷ [])
  unfolding add
  add_new name r l e = rw (add, e) refl

  add_old :
      (name : String) (r old : Reaction H) (l : List (String × Reaction H))
      → find_reaction names name l ≡ some old
      → (add names name r l).1 ≡ l
  unfolding add
  add_old name r old l e = rw (add, e) refl

  -- A reaction that is added is taken for what no reaction before it is taken for.
  find_reaction-add :
      (command name : String) (r : Reaction H) (l : List (String × Reaction H))
      → find_reaction names command (add names name r l).1
        ≡ or (find_reaction names command l) (match_one command name r)
  unfolding find_reaction
  find_reaction-add command name r l = elim (Option-cases (find_reaction names name l)) [
    | inl e ↦ rw (add_new name r l e) (
        find_reaction-append command l ((name, r) ∷ [])
        ∙ ap (or (find_reaction names command l))
            (find_reaction_cons command name r [] ∙ or_none (match_one command name r)))
    | inr (old, e) ↦
        rw (add_old name r old l e) (elim (Bool-cases (same_action names name command)) [
          | inl same ↦
              let found = sym (find_reaction-same name command l same) ∙ e in rw (found) refl
          | inr other ↦ rw other (sym (or_none (find_reaction names command l)))
        ])
  ]

  -- The handlers that are attached, one after the other.
  abbrev pub attach_all : List (String × H) → LocalActor A C H → LocalActor A C H
  attach_all [] self = self
  attach_all ((name, h) ∷ rest) self = attach_all rest (attach names name h self)

  -- The first entry of a list of names and reactions.
  abbrev pub first : String → List (String × Reaction H) → Option (Reaction H)
  first command [] = none
  first command ((k, r) ∷ rest) = or (match_one command k r) (first command rest)

  abbrev pub standard : List (String × Reaction H)
  standard = ("sync_contacts", sync_contacts) ∷ ("skip", skip) ∷ ("add_channel", add_channel) ∷ []

  abbrev pub attached_all : List (String × H) → List (String × Reaction H)
  attached_all hs = map (λ p. (p.0, attached p.1)) hs

  find-attach_all :
      (command : String) (hs : List (String × H)) (self : LocalActor A C H)
      → find_reaction names command (attach_all hs self).reactions
        ≡ or (find_reaction names command self.reactions) (first command (attached_all hs))
  unfolding attach
  find-attach_all command [] self = sym (or_none (find_reaction names command self.reactions))
  find-attach_all command ((name, h) ∷ rest) self =
      find-attach_all command rest (attach names name h self)
      ∙ ap (λ o. or o (first command (attached_all rest)))
          (find_reaction-add command name (attached h) self.reactions)
      ∙ or_assoc (find_reaction names command self.reactions) (match_one command name (attached h))
          (first command (attached_all rest))

  regroup :
      (command : String)
      → or
          (or
            (or (find_reaction names command []) (match_one command "sync_contacts" sync_contacts))
            (match_one command "skip" skip))
          (match_one command "add_channel" add_channel)
        ≡ first command standard
  unfolding find_reaction
  regroup command =
      or_assoc (match_one command "sync_contacts" sync_contacts) (match_one command "skip" skip)
        (match_one command "add_channel" add_channel)
      ∙ ap
          (λ o.
            or (match_one command "sync_contacts" sync_contacts)
              (or (match_one command "skip" skip) o))
          (sym (or_none (match_one command "add_channel" add_channel)))

  find-initialize :
      (command : String)
      → find_reaction names command (initialize names {H = H}).reactions ≡ first command standard
  unfolding initialize
  find-initialize command =
      let one = (add names "sync_contacts" sync_contacts []).1 in
      let two = (add names "skip" skip one).1 in
      find_reaction-add command "add_channel" add_channel two
      ∙ ap (λ o. or o (match_one command "add_channel" add_channel))
          (find_reaction-add command "skip" skip one
            ∙ ap (λ o. or o (match_one command "skip" skip))
                (find_reaction-add command "sync_contacts" sync_contacts []))
      ∙ regroup command

  choose_found :
      (command : String) (l : List (String × Reaction H)) (r : Reaction H)
      → find_reaction names command l ≡ some r
      → choose names command l ≡ ok r
  unfolding choose
  choose_found command l r e = rw (choose, e) refl

  choose_missing :
      (command : String) (l : List (String × Reaction H)) (r : Reaction H)
      → find_reaction names command l ≡ none
      → find_reaction names "skip" l ≡ some r
      → choose names command l ≡ ok r
  unfolding choose
  choose_missing command l r e s = rw (choose, e, s) refl

  -- An actor that has its three standard reactions and to which handlers were attached finds a reaction
  -- for every command: the first, of the standard reactions and then of the handlers in the order in
  -- which they were attached, whose name has the hash of the command; and "skip" if there is none.
  -- The hashes of the names "sync_contacts" and "skip" differ.
  pub choose-attach_all :
      (command : String) (hs : List (String × H))
      → same_action names "sync_contacts" "skip" ≡ false
      → choose names command (attach_all hs (initialize names)).reactions
        ≡ ok (or_else skip (or (first command standard) (first command (attached_all hs))))
  choose-attach_all command hs differ =
      let l = (attach_all hs (initialize names)).reactions in
      let found =
        find-attach_all command hs (initialize names)
        ∙ ap (λ o. or o (first command (attached_all hs))) (find-initialize command) in
      let skips : first "skip" standard ≡ some skip =
        rw (differ, nat_eq_refl (names.hash "skip")) refl in
      let skipped : find_reaction names "skip" l ≡ some skip =
        find-attach_all "skip" hs (initialize names)
        ∙ ap (λ o. or o (first "skip" (attached_all hs))) (find-initialize "skip" ∙ skips) in
      elim (Option-cases (or (first command standard) (first command (attached_all hs)))) [
        | inl e ↦ choose_missing command l skip (found ∙ e) skipped ∙ rw e refl
        | inr (r, e) ↦ choose_found command l r (found ∙ e) ∙ rw e refl
      ]
