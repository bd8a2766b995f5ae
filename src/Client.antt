-- ===== src/Client.antt =====
-- ngxe_client_init_handler and ngxe_create_peer: the two ends of an outgoing connection.
pub mod Laws
use nginx_engine.Base.{
  ℕ, String, Bool, true, false, Option, none, some, if◌then◌else◌, ◌%◌, ◌*◌, ◌/◌, ◌+◌,
}
use nginx_engine.State.{World, Env, Event, Pointer, null, connection, dummy_handler}
use nginx_engine.Callback.{callback}
use nginx_engine.Connection.{fail, log, del_timer, connect_error, timed_out_error}

-- Which of the two events `ev` is. The handler is set on both.
pub data Side : Type 0 where
  read_side write_side : Side

abbrev pub event_of : {S : Type 0} → Side → World S → Event
event_of read_side w = w.read
event_of write_side w = w.write

module _ {S : Type 0} (e : Env S) where
  -- Lines 1272 to 1304, with a callback.
  unfoldable pub connected : Side → ℕ → World S → World S
  connected side cb w =
      if (event_of side w).error
      then fail e cb connect_error (log "client error" w)
      else if (event_of side w).timedout
      then fail e cb timed_out_error (log "client timed out" (record w { timed_out = true }))
      else callback e cb true (record w { write = del_timer w.write })

  -- The guards after `c == NULL`.
  unfoldable pub client_ready : Side → World S → World S
  unfolding connected
  client_ready side w =
      if w.has_session
      then elim w.writer_callback [
        | none ↦ log "ngxe_client_init_handler(): cb == NULL" w
        | some cb ↦ connected side cb w
      ]
      else log "ngxe_client_init_handler(): s == NULL" w

  -- ngxe_client_init_handler
  unfoldable pub client_init_event : Side → Pointer → World S → World S
  unfolding client_ready
  client_init_event side null w = log "ngxe_client_init_handler(): c == NULL" w
  client_init_event side connection w = client_ready side (record w {
    read = record w.read { handler = dummy_handler };
    write = record w.write { handler = dummy_handler };
  })

-- `struct sockaddr_in`, `family` left out: it is always AF_INET.
pub record SockAddr : Type 0 where
  pub addr : ℕ
  pub port : ℕ

-- The fields of `ngx_peer_connection_t` that are set; `local` is the `peer->local` that
-- ngx_event_connect_peer binds the socket to, NULL in memory from ngx_pcalloc.
pub record Peer : Type 0 where
  pub sockaddr : SockAddr
  pub local : Option SockAddr

-- A pointer, or NULL with the line of the log that says what failed.
pub data Made {ℓ} (A : Type ℓ) : Type ℓ where
  made : A → Made A
  failed : String → Made A

-- Whether an ngx_pcalloc was successful.
abbrev pub alloc {ℓ} : {A : Type ℓ} → Bool → String → Made A → Made A
alloc true line rest = rest
alloc false line rest = failed line

-- htons on a little-endian machine
abbrev pub htons : ℕ → ℕ
htons port = port % 256 * 256 + port / 256 % 256

-- ngxe_create_peer. `memory i` says whether the i-th allocation succeeds. What is built behind `local`
-- and `localsin` is not stored in the peer.
unfoldable pub create_peer : (ℕ → Bool) → ℕ → ℕ → ℕ → Made Peer
create_peer memory bindaddr addr port =
    alloc (memory 0) "local = ngx_pcalloc(pool, sizeof(ngx_addr_t)) failed" (
      alloc (memory 1) "localsin = ngx_pcalloc(pool, sizeof(struct sockaddr_in)) failed" (
        let localsin : SockAddr = record { addr = addr; port = 0 } in
        alloc (memory 2) "sin = ngx_pcalloc(pool, sizeof(struct sockaddr_in)) failed" (
          let sin : SockAddr = record { addr = addr; port = htons port } in
          alloc (memory 3) "peer = ngx_pcalloc(pool, sizeof(ngx_peer_connection_t)) failed" (
            alloc (memory 4) "peer->name = ngx_pcalloc(pool, sizeof(ngx_str_t *)); failed"
              (made (record { sockaddr = sin; local = none }))))))
