-- ===== src/Network/Listener/Delivery.antt =====
-- Where a text goes that the services write to a connection.
use stream_cloud.Prelude.{
  String, ℕ, ◌≡◌, refl, ap, none, some, List, [], ◌∷◌, map, arith, lookup, lookup-emplace,
  lookup-erase, eq_refl, or_else, false,
}
use stream_cloud.Api.Action.{◌>>=◌}
use stream_cloud.Api.Libraries.{Json}
use stream_cloud.Api.Message.{Transport, web_socket, transport_id}
use stream_cloud.Network.Listener.{Listener, wrote, piped, write, on_accept, remove, to_pipes}

module _ (J : Json) (what : String) where
  to_pipes-sent :
      (ptr : Transport J) (pipes : List String) (s : Listener)
      → (to_pipes J what ptr pipes s).sent ≡ map (λ pipe. piped pipe ptr) pipes
  unfolding to_pipes ◌>>=◌
  to_pipes-sent ptr [] s = refl
  to_pipes-sent ptr (pipe ∷ rest) s = ap (λ l. piped pipe ptr ∷ l) (to_pipes-sent ptr rest s)

  pub write_known :
      (id : String) (body : J.Text) (s : Listener) (session : ℕ)
      → lookup id s.storage_sessions ≡ some session
      → (write J what (web_socket id body) s).sent ≡ wrote session body ∷ []
  unfolding write ◌>>=◌
  write_known id body s session e = ground arith

  pub write_unknown :
      (ptr : Transport J) (s : Listener)
      → lookup (transport_id J ptr) s.storage_sessions ≡ none
      → (write J what ptr s).sent ≡ map (λ pipe. piped pipe ptr) s.pipe
  unfolding write ◌>>=◌
  write_unknown ptr s e = ground (arith, to_pipes-sent ptr s.pipe s)

  -- A text for a connection that was accepted goes to its session, or, if the clock had given the id
  -- before, to the session that had it first; a text for a connection that was removed goes to the
  -- actors of the pipe, as any text for an unknown connection.
  pub write-on_accept :
      (id : String) (body : J.Text) (s : Listener) (session : ℕ)
      → ((write J what (web_socket id body) (on_accept J what false id session s).state).sent
          ≡ wrote (or_else session (lookup id s.storage_sessions)) body ∷ [])
        × ((write J what (web_socket id body) (remove J what (web_socket id body) s).state).sent
            ≡ map (λ pipe. piped pipe (web_socket id body)) s.pipe)
  unfolding on_accept remove ◌>>=◌
  write-on_accept id body s session = (
    write_known id body _ _
        (ground (arith, lookup-emplace id id session s.storage_sessions, eq_refl id)),
    write_unknown (web_socket id body) _
        (ground (arith, lookup-erase id id s.storage_sessions, eq_refl id)),
  )
