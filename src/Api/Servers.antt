-- ===== src/Api/Servers.antt =====
-- ngxe_server of Engine.xs. The state is that of the listening connection, which Engine.xs reaches
-- through the structure that ngxe_server_create returns.
use nginx_engine.Base.{
  ℕ, ◌+◌, ◌==◌, Bool, true, false, Option, none, some, List, [], ◌∷◌, ◌≡◌, refl, if◌then◌else◌,
  arith, if_rule,
}
use mathlib.Core.Path.{subst}
use nginx_engine.State.{World, Env, connection}
use nginx_engine.Connection.{close}
use nginx_engine.Connection.Close.{◌∈◌}
use nginx_engine.Listen.{Listening, Host, Net}
use nginx_engine.Server.{server_create}
use nginx_engine.Server.Laws.{Accepts, server_create-Accepts}
use nginx_engine.Api.{
  Globals, Reply, croaked, undefined, handed, returned, answered, aborted, Supply, warn, free_temps,
}
use nginx_engine.Api.Creation.{with_callback, with_args, first_args, extra_args}
use nginx_engine.Api.Books.{
  IsBooked, unbooked, first_args-IsBooked, extra_args-IsBooked, blank_callback,
  blank_callback-IsBooked,
}
use nginx_engine.Api.Refs.{close_booked}

-- The address to listen on: INADDR_ANY for an empty one and for one that begins with an asterisk.
-- `inet_addr` is ngx_inet_addr, `none` for INADDR_NONE.
abbrev pub listen_inaddr : (List ℕ → Option ℕ) → List ℕ → Option ℕ
listen_inaddr inet_addr [] = some 0
listen_inaddr inet_addr (c ∷ rest) = if c == 42 then some 0 else inet_addr (c ∷ rest)

-- `ls == NULL`, `ls->connection == NULL`
abbrev pub connection_of : Option Listening → Option ℕ
connection_of none = none
connection_of (some ls) = ls.connection

module _ {S : Type 0} (cb : ℕ) (s : Supply) (extra : ℕ) where
  -- The arguments of the callback.
  unfoldable pub server_args : World S → World S
  unfolding first_args extra_args
  server_args w = extra_args cb (λ i. s.fresh (i + 3)) extra (first_args cb s w)

  -- With a connection, or with NULL: the callback, which `c->data` points to from then on.
  unfoldable pub listen_with : Option ℕ → World S → Option (Reply S)
  unfolding with_callback with_args server_args
  listen_with none w = some (undefined (warn "ngxe_server_create() failed" w))
  listen_with (some c) w =
      with_callback cb s
        (with_args cb s (extra + 2)
          (λ v. some (handed (record (server_args v) { has_session = true }))))
        w

  module _ {T : Type 0} (h : Host T) (memory : ℕ → Bool) (inet_addr : List ℕ → Option ℕ) where
    -- ngxe_server. `memory` is for the allocations of ngxe_server_create, `port` the port after the
    -- cast to in_port_t, `extra` the number of arguments that Perl code has passed behind the sub.
    unfoldable pub server : Globals → List ℕ → ℕ → Net T → World S → Option (Reply S) × Net T
    unfolding listen_with server_create
    server g address port n w =
        if g.initialized
        then (elim (listen_inaddr inet_addr address) [
          | none ↦ (some (undefined (warn "Argument 0 (address) is not an IP address" w)), n)
          | some addr ↦
              let (ls, n') = server_create h memory addr port n in
              (listen_with (connection_of ls) w, n')
        ])
        else (some (croaked "You need to call ngxe_init() first" w), n)

  server_args-IsBooked :
      (w0 w : World S)
      → IsBooked cb (extra + 2) (cb ∷ w0.cleanups) w0 0 w
      → IsBooked cb (extra + 2) (cb ∷ w0.cleanups) w0 (extra + 2) (server_args w)
  unfolding server_args
  server_args-IsBooked w0 w h =
      subst (λ k. IsBooked cb (extra + 2) (cb ∷ w0.cleanups) w0 k (server_args w)) (omega arith)
        (extra_args-IsBooked cb (extra + 2) (cb ∷ w0.cleanups) w0 extra (λ i. s.fresh (i + 3)) 2 _
          (first_args-IsBooked cb (extra + 2) (cb ∷ w0.cleanups) w0 s 0 w h))

  -- With a listening connection that is not destroyed, the memory that is asked for, no temporary
  -- scalars before it and a callback that is new to the pool: when the statement has ended and
  -- ngxe_close has closed the connection, all reference counts are those that closing it without the
  -- callback would have left.
  pub refs-close-listen_with :
      (e : Env S) (c : ℕ) (w : World S)
      → ((i : ℕ) → s.memory i ≡ true)
      → w.mortals ≡ []
      → w.destroyed ≡ false
      → cb ∈ w.cleanups ≡ false
      → (v : World S) × (listen_with (some c) w ≡ some (handed v))
        × ((close e connection (free_temps v)).refs ≡ (close e connection w).refs)
  unfolding listen_with with_callback with_args
  refs-close-listen_with e c w memory m d f = (
    record filled { has_session = true },
    rw (memory 0, memory 1, memory 2) refl,
    close_booked e cb (extra + 2) w _
        (unbooked cb (extra + 2) (cb ∷ w.cleanups) w (extra + 2) filled _
          (server_args-IsBooked w _ (blank_callback-IsBooked cb (extra + 2) s w m)) refl refl refl
          refl refl)
        d f,
  )
    where
      filled : World S
      filled = server_args (blank_callback cb (extra + 2) s w)

  module _ {T : Type 0} (h : Host T) (memory : ℕ → Bool) (inet_addr : List ℕ → Option ℕ) where
    -- A pointer is handed out only where some connection accepts.
    abbrev IsListening : Option (Reply S) × Net T → Type 0
    IsListening (some (handed v), n) = (c : ℕ) × (rest : List ℕ) × (n.accepts ≡ c ∷ rest)
    IsListening _ = Unit {0}

    any-IsListening :
        (o : Option (Reply S)) (n : Net T)
        → (c : ℕ) × (rest : List ℕ) × (n.accepts ≡ c ∷ rest)
        → IsListening (o, n)
    any-IsListening none n a = tt
    any-IsListening (some (handed v)) n a = a
    any-IsListening (some (croaked line v)) n a = tt
    any-IsListening (some (undefined v)) n a = tt
    any-IsListening (some (returned v)) n a = tt
    any-IsListening (some (answered k v)) n a = tt
    any-IsListening (some (aborted v)) n a = tt

    created-IsListening :
        (r : Option Listening × Net T) (w : World S)
        → Accepts h r
        → IsListening (listen_with (connection_of r.0) w, r.1)
    unfolding listen_with
    created-IsListening (none, n) w a = tt
    created-IsListening (some ls, n) w (c, rest, same, accepts) =
        any-IsListening _ n (c, rest, accepts)

    -- Where ngxe_server hands out a pointer, whatever failed before it, there is a connection whose
    -- read event was given the handler that accepts.
    pub server_listens :
        (g : Globals) (address : List ℕ) (port : ℕ) (n n' : Net T) (w v : World S)
        → server h memory inet_addr g address port n w ≡ (some (handed v), n')
        → (c : ℕ) × (rest : List ℕ) × (n'.accepts ≡ c ∷ rest)
    unfolding server
    server_listens g address port n n' w v same =
        subst IsListening same
          (if_rule IsListening g.initialized (parsed (listen_inaddr inet_addr address)) tt)
      where
        parsed :
            (a : Option ℕ)
            → IsListening (elim a [
              | none ↦ (some (undefined (warn "Argument 0 (address) is not an IP address" w)), n)
              | some addr ↦ (
                listen_with (connection_of (server_create h memory addr port n).0) w,
                (server_create h memory addr port n).1,
              )
            ])
        parsed none = tt
        parsed (some addr) =
            created-IsListening (server_create h memory addr port n) w
              (server_create-Accepts h memory addr port n)
