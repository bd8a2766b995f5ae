-- ===== src/Life/Dialling.antt =====
-- From ngxe_client to the first event of its connection.
use nginx_engine.Base.{ℕ, ℤ, true, some, List, ◌≡◌, ◌⊎◌, ap}
use nginx_engine.State.{World, Env, Event, connection, client_init_handler}
use nginx_engine.Client.{Peer, Side, read_side, write_side, client_init_event}
use nginx_engine.Client.Laws.{client_init_event_fails}
use nginx_engine.Api.{Globals, Supply, handed}
use nginx_engine.Api.Clients.{Dial, rc_again, bind_inaddr, client}
use nginx_engine.Api.Connecting.{IsConnecting, client-IsConnecting}
use nginx_engine.Life.{deliver, arrive, handler_of}

module _ {S : Type 0} (e : Env S) (cb : ℕ) (timeout : ℤ) where
  handler-IsConnecting :
      (side : Side) (v : World S)
      → IsConnecting cb timeout v
      → handler_of side v ≡ client_init_handler
  handler-IsConnecting read_side v h = h.reads
  handler-IsConnecting write_side v h = h.writes

  connecting_fails :
      (side : Side) (ev : Event) (outside : S) (v : World S)
      → IsConnecting cb timeout v
      → (ev.error ≡ true) ⊎ (ev.timedout ≡ true)
      → (client_init_event e side connection (arrive side ev outside v)).destroyed ≡ true
  connecting_fails read_side ev outside v h bad =
      client_init_event_fails e read_side (arrive read_side ev outside v) cb h.session h.callback
        bad
  connecting_fails write_side ev outside v h bad =
      client_init_event_fails e write_side (arrive write_side ev outside v) cb h.session h.callback
        bad

  -- When ngxe_client gets two addresses, all memory that it asks for, and a connection that is being made
  -- (NGX_AGAIN), it hands out the connection, whose write timer is set; and the first event on either
  -- side, if it carries an error or has timed out, destroys the connection.
  pub client_disconnects :
      (d : Dial S) (s : Supply) (g : Globals) (bind_address address : List ℕ) (port extra b a : ℕ)
      (w : World S) (limit fuel : ℕ) (side : Side) (ev : Event) (outside : S)
      → ((i : ℕ) → s.memory i ≡ true)
      → ((peer : Peer) (x : S) → (d.connect_peer peer x).0 ≡ rc_again)
      → ((peer : Peer) (x : S) → (d.connect_peer peer x).1 ≡ true)
      → g.initialized ≡ true
      → bind_inaddr d bind_address ≡ some b
      → d.inet_addr address ≡ some a
      → (ev.error ≡ true) ⊎ (ev.timedout ≡ true)
      → (v w' : World S) × (client e cb timeout d s g bind_address address port extra w
          ≡ some (handed v))
        × (v.write.timer ≡ some timeout)
        × (deliver e limit fuel side (handler_of side v) (arrive side ev outside v) ≡ some w')
        × (w'.destroyed ≡ true)
  unfolding deliver
  client_disconnects d s g bind_address address port extra b a w limit fuel side ev outside memory
        again one i bi ai bad =
      let (v, same, waits) =
        client-IsConnecting e cb timeout d s memory again one g bind_address address port extra b a
          w i bi ai in
      (
        v,
        client_init_event e side connection (arrive side ev outside v),
        same,
        waits.timer,
        ap (λ h. deliver e limit fuel side h (arrive side ev outside v))
            (handler-IsConnecting side v waits),
        connecting_fails side ev outside v waits bad,
      )
