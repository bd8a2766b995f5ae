-- ===== src/Api/Clients.antt =====
-- ngxe_client of Engine.xs. The state is that of the connection which ngx_event_connect_peer makes,
-- and of the pool that ngxe_client makes before it.
-- Left out: what `args[0]` holds, the bytes of the name of the peer, and the logs.
use nginx_engine.Base.{
  ℕ, ℤ, negsuc, ◌+◌, String, Bool, true, false, Option, none, some, List, [], ◌∷◌, ◌==◌,
  if◌then◌else◌,
}
use nginx_engine.State.{World, Env, ErrorValue, connection, client_init_handler}
use nginx_engine.Callback.{callback, inc, update}
use nginx_engine.Connection.{close, close_connection, destroy_pool, log, set_error}
use nginx_engine.Client.{Peer, Made, made, failed, create_peer, client_init_event, write_side}
use nginx_engine.Server.{empty_session}
use nginx_engine.Api.{Globals, Reply, undefined, handed, Supply, abort, mint, warn, if_initialized}
use nginx_engine.Api.Creation.{blank, change, first_args, extra_args}

-- What ngx_event_connect_peer returns.
pub data Rc : Type 0 where
  rc_ok rc_again rc_busy rc_declined rc_error : Rc

-- What ngxe_client calls: ngx_inet_addr, `none` for INADDR_NONE; ngx_event_connect_peer, with whether
-- `peer->connection` is not NULL after it.
pub record Dial (S : Type 0) : Type 0 where
  pub inet_addr : List ℕ → Option ℕ
  pub connect_peer : Peer → S → Rc × Bool × S

-- `rc == NGX_ERROR || rc == NGX_BUSY || rc == NGX_DECLINED`
abbrev pub is_refused : Rc → Bool
is_refused rc_ok = false
is_refused rc_again = false
is_refused _ = true

abbrev pub is_ok : Rc → Bool
is_ok rc_ok = true
is_ok _ = false

abbrev pub dial_error : String → ErrorValue
dial_error line = record { iv = negsuc 0; pv = line }

-- The address to bind to: INADDR_ANY for an empty one and for one that begins with an asterisk.
abbrev pub bind_inaddr : {S : Type 0} → Dial S → List ℕ → Option ℕ
bind_inaddr d [] = some 0
bind_inaddr d (c ∷ rest) = if c == 42 then some 0 else d.inet_addr (c ∷ rest)

module _ {S : Type 0} (e : Env S) where
  module _ (cb : ℕ) where
    -- The sub is told of an error that has left no connection.
    unfoldable pub tell : String → World S → World S
    unfolding set_error callback
    tell line w = callback e cb true (set_error cb (dial_error line) w)

    module _ (timeout : ℤ) where
      -- The session of the new connection. `retval` is the scalar of the result, which is made before it
      -- and is given to Perl with the session; without one it keeps its reference.
      unfoldable pub start_session : Bool → Rc → ℕ → World S → Reply S
      unfolding tell close client_init_event
      start_session memory rc retval w =
          if memory
          then (let s = empty_session w in
              let v = record s {
                writer_callback = some cb;
                writer_timeout = timeout;
                write = record s.write { handler = client_init_handler };
                read = record s.read { handler = client_init_handler };
              } in
              handed (
                if is_ok rc
                then client_init_event e write_side connection v
                else record v { write = record v.write { timer = some timeout } }))
          else undefined (
              close e connection
                (tell "Cannot allocate memory for session" (record w { refs = inc retval w.refs })))

      -- After ngx_event_connect_peer.
      unfoldable pub connected_peer : Bool → Rc × Bool × S → ℕ → World S → Reply S
      unfolding tell start_session destroy_pool close_connection
      connected_peer memory (rc, has_connection, outside) retval w =
          let w' = record w { outside = outside } in
          if is_refused rc
          then (let v = tell "Connection failed" w' in
              undefined (destroy_pool (if has_connection then close_connection e v else v)))
          else if has_connection
          then start_session memory rc retval (record w' { has_pool = true })
          else undefined (destroy_pool (tell "Connection error" w'))

      module _ (d : Dial S) (s : Supply) where
        -- With a callback that is registered with the pool.
        unfoldable pub dial : ℕ → Peer → World S → Reply S
        unfolding mint first_args extra_args tell connected_peer destroy_pool
        dial extra peer w =
            let w' =
              change cb (λ c. record c { handler = some (s.fresh 0); args_n = extra + 2 })
                (mint (s.fresh 0) w) in
            if s.memory 8
            then (let v = extra_args cb (λ i. s.fresh (i + 3)) extra (first_args cb s w') in
                if s.memory 9
                then connected_peer (s.memory 10) (d.connect_peer peer v.outside)
                    (s.fresh (extra + 3)) v
                else undefined
                    (destroy_pool (tell "Failed to allocate memory for peer->name->data" v)))
            else abort w'

        -- With a pool. `peer` is what ngxe_create_peer has made.
        unfoldable pub with_peer : ℕ → Made Peer → World S → Reply S
        unfolding dial destroy_pool
        with_peer extra (failed line) w =
            undefined (destroy_pool (warn "Failed to create new nginx peer" (log line w)))
        with_peer extra (made peer) w =
            if s.memory 6
            then (let w' = record w { callbacks = update w.callbacks cb blank } in
                if s.memory 7
                then dial extra peer (record w' { cleanups = cb ∷ w.cleanups })
                else undefined
                    (destroy_pool (warn "Failed to allocate memory for callback's cleanup" w')))
            else undefined (destroy_pool (warn "Failed to allocate memory for callback" w))

        -- With two addresses.
        unfoldable pub with_addresses : ℕ → ℕ → ℕ → ℕ → World S → Reply S
        unfolding create_peer with_peer
        with_addresses bindaddr addr port extra w =
            if s.memory 0
            then with_peer extra (create_peer (λ i. s.memory (i + 1)) bindaddr addr port)
                (record w { pool_alive = true; cleanups = [] })
            else undefined (warn "Failed to create new nginx memory pool" w)

        -- ngxe_client. `port` is the port after the cast to in_port_t, `extra` the number of arguments that
        -- Perl code has passed behind the sub.
        unfoldable pub client : Globals → List ℕ → List ℕ → ℕ → ℕ → World S → Option (Reply S)
        unfolding if_initialized with_addresses
        client g bind_address address port extra = if_initialized g (λ w.
            some (elim (bind_inaddr d bind_address) [
              | none ↦ undefined (warn "Argument 0 (bind_address) is not an IP address" w)
              | some bindaddr ↦ elim (d.inet_addr address) [
                | none ↦ undefined (warn "Argument 1 (address) is not an IP address" w)
                | some addr ↦ with_addresses bindaddr addr port extra w
              ]
            ]))
