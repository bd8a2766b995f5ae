-- ===== src/Client/Laws.antt =====
-- ngxe_client_init_handler: the sub of an outgoing connection is told of the result.
use nginx_engine.Base.{ℕ, true, Option, none, some, ◌≡◌, if_rule, ◌⊎◌, inl, inr}
use nginx_engine.State.{World, Env, Pointer, null, connection, dummy_handler}
use nginx_engine.Connection.{log}
use nginx_engine.Connection.Close.{IsCoherent, fail-destroyed}
use nginx_engine.Connection.Coherence.{KeepCoherent, callback-IsCoherent, fail-IsCoherent}
use nginx_engine.Client.{
  Side, read_side, write_side, event_of, connected, client_ready, client_init_event,
}

abbrev ready : {S : Type 0} → World S → World S
ready w = record w {
  read = record w.read { handler = dummy_handler };
  write = record w.write { handler = dummy_handler };
}

module _ {S : Type 0} (e : Env S) where
  connected_fails :
      (side : Side) (cb : ℕ) (w : World S)
      → ((event_of side w).error ≡ true) ⊎ ((event_of side w).timedout ≡ true)
      → (connected e side cb w).destroyed ≡ true
  unfolding connected
  connected_fails side cb w (inl h) = rw h (fail-destroyed e cb _ _)
  connected_fails side cb w (inr h) =
      if_rule (λ (v : World S). v.destroyed ≡ true) (event_of side w).error
        (fail-destroyed e cb _ _) (rw h (fail-destroyed e cb _ _))

  -- With a session and a callback, an event that carries an error or has timed out destroys the
  -- connection.
  pub client_init_event_fails :
      (side : Side) (w : World S) (cb : ℕ)
      → w.has_session ≡ true
      → w.writer_callback ≡ some cb
      → ((event_of side w).error ≡ true) ⊎ ((event_of side w).timedout ≡ true)
      → (client_init_event e side connection w).destroyed ≡ true
  unfolding client_init_event
  client_init_event_fails read_side w cb s c bad =
      rw (s, c, client_ready) (connected_fails read_side cb (ready w) bad)
  client_init_event_fails write_side w cb s c bad =
      rw (s, c, client_ready) (connected_fails write_side cb (ready w) bad)

  connected-IsCoherent :
      KeepCoherent e
      → (side : Side) (cb : ℕ) (w : World S) → IsCoherent w
      → IsCoherent (connected e side cb w)
  unfolding connected
  connected-IsCoherent k side cb w h =
      if_rule IsCoherent (event_of side w).error
        (fail-IsCoherent e k cb _ _ (record { pool = h.pool; once = h.once }))
        (if_rule IsCoherent (event_of side w).timedout
          (fail-IsCoherent e k cb _ _ (record { pool = h.pool; once = h.once }))
          (callback-IsCoherent e k cb true _ (record { pool = h.pool; once = h.once })))

  client_ready-IsCoherent :
      KeepCoherent e
      → (side : Side) (w : World S) → IsCoherent w
      → IsCoherent (client_ready e side w)
  unfolding client_ready
  client_ready-IsCoherent k side w h =
      if_rule IsCoherent w.has_session (with_callback w.writer_callback)
        (record { pool = h.pool; once = h.once })
    where
      with_callback :
          (c : Option ℕ)
          → IsCoherent (elim c [
            | none ↦ log "ngxe_client_init_handler(): cb == NULL" w
            | some cb ↦ connected e side cb w
          ])
      with_callback none = record { pool = h.pool; once = h.once }
      with_callback (some cb) = connected-IsCoherent k side cb w h

  -- The handler of a new outgoing connection keeps it coherent, on every branch, if the Perl subs and
  -- native handlers do: it is released at most once.
  pub client_init_event-IsCoherent :
      KeepCoherent e
      → (side : Side) (p : Pointer) (w : World S) → IsCoherent w
      → IsCoherent (client_init_event e side p w)
  unfolding client_init_event
  client_init_event-IsCoherent k side null w h = record { pool = h.pool; once = h.once }
  client_init_event-IsCoherent k side connection w h =
      client_ready-IsCoherent k side (ready w) (record { pool = h.pool; once = h.once })
