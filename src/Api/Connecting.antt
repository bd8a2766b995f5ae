-- ===== src/Api/Connecting.antt =====
-- ngxe_client where the connection is being made: what the first event does.
use nginx_engine.Base.{ℕ, ℤ, ◌+◌, true, some, List, ◌≡◌, refl}
use nginx_engine.State.{World, Env, client_init_handler}
use nginx_engine.Client.{Peer, create_peer}
use nginx_engine.Api.{Globals, handed, Supply, if_initialized}
use nginx_engine.Api.{mint}
use nginx_engine.Api.Creation.{blank, change, extra_args, first_args}
use nginx_engine.Callback.{update}
use nginx_engine.Client.{htons}
use nginx_engine.Base.{none, ap, [], ◌∷◌}
use nginx_engine.Api.Clients.{
  Dial, rc_again, bind_inaddr, start_session, connected_peer, dial, with_peer, with_addresses,
  client,
}

-- A session that waits for its connection.
pub record IsConnecting {S : Type 0} (cb : ℕ) (timeout : ℤ) (v : World S) : Type 0 where
  pub session : v.has_session ≡ true
  pub callback : v.writer_callback ≡ some cb
  pub timer : v.write.timer ≡ some timeout
  pub reads : v.read.handler ≡ client_init_handler
  pub writes : v.write.handler ≡ client_init_handler

module _ {S : Type 0} (e : Env S) (cb : ℕ) (timeout : ℤ) (d : Dial S) (s : Supply)
    (memory : (i : ℕ) → s.memory i ≡ true)
    (again : (peer : Peer) (x : S) → (d.connect_peer peer x).0 ≡ rc_again)
    (made_one : (peer : Peer) (x : S) → (d.connect_peer peer x).1 ≡ true) where
  connected_peer-IsConnecting :
      (peer : Peer) (retval : ℕ) (w : World S)
      → (v : World S) × (connected_peer e cb timeout true (d.connect_peer peer w.outside) retval w
          ≡ handed v)
        × IsConnecting cb timeout v
  unfolding connected_peer start_session
  connected_peer-IsConnecting peer retval w =
      rw (again peer w.outside, made_one peer w.outside)
        (
          _,
          refl,
          record { session = refl; callback = refl; timer = refl; reads = refl; writes = refl },
        )

  dial-IsConnecting :
      (extra : ℕ) (peer : Peer) (w : World S)
      → (v : World S) × (dial e cb timeout d s extra peer w ≡ handed v) × IsConnecting cb timeout v
  unfolding dial
  dial-IsConnecting extra peer w =
      rw (memory 8, memory 9, memory 10)
        (connected_peer-IsConnecting peer (s.fresh (extra + 3)) (
          extra_args cb (λ i. s.fresh (i + 3)) extra
            (first_args cb s (
              change cb (λ c. record c { handler = some (s.fresh 0); args_n = extra + 2 })
                (mint (s.fresh 0) w)))))

  -- With a connection that is being made and all memory: ngxe_client hands it out, with a session that
  -- waits.
  pub client-IsConnecting :
      (g : Globals) (bind_address address : List ℕ) (port extra b a : ℕ) (w : World S)
      → g.initialized ≡ true
      → bind_inaddr d bind_address ≡ some b
      → d.inet_addr address ≡ some a
      → (v : World S) × (client e cb timeout d s g bind_address address port extra w
          ≡ some (handed v))
        × IsConnecting cb timeout v
  unfolding client if_initialized with_addresses with_peer create_peer
  client-IsConnecting g bind_address address port extra b a w i bi ai =
      let (v, p, q) =
        dial-IsConnecting extra
          (record { sockaddr = record { addr = a; port = htons port }; local = none })
          (record w {
            pool_alive = true;
            callbacks = update w.callbacks cb blank;
            cleanups = cb ∷ [];
          }) in
      (
        v,
        rw
            (
              i,
              bi,
              ai,
              memory 0,
              memory 1,
              memory 2,
              memory 3,
              memory 4,
              memory 5,
              memory 6,
              memory 7,
            )
            (ap some p),
        q,
      )
