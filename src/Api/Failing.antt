-- ===== src/Api/Failing.antt =====
-- ngxe_client: whenever it fails, each reference that it took is given back, and no pool is left.
use nginx_engine.Base.{
  ℕ, ℤ, ◌+◌, Bool, true, false, Option, none, some, List, [], ◌∷◌, ◌≡◌, refl, arith, if_rule,
  if_cases, ◌⊎◌, inl, inr,
}
use mathlib.Core.Path.{subst}
use nginx_engine.State.{World, Env}
use nginx_engine.Callback.{inc, update, dec_all}
use nginx_engine.Connection.{destroy_pool, run_cleanups}
use nginx_engine.Client.{Peer, Made, made, failed}
use nginx_engine.Api.{Globals, Reply, undefined, warn, Supply, free_temps, if_initialized}
use nginx_engine.Api.Creation.{blank, extra_args, first_args}
use nginx_engine.Api.Books.{
  IsBooked, unbooked, first_args-IsBooked, extra_args-IsBooked, blank_callback,
  blank_callback-IsBooked,
}
use nginx_engine.Api.Clients.{
  Rc, Dial, is_refused, bind_inaddr, start_session, connected_peer, dial, with_peer, with_addresses,
  client,
}
use nginx_engine.Api.Told.{IsQuiet, IsTold, tell-IsTold, destroy_pool-told, close-told}

-- What a failed call leaves of the counts at the end of its statement: all as they were, or, where there
-- was no memory for the session, the scalar of the result with a reference that nobody has.
abbrev pub IsLeft : Bool → ℕ → (ℕ → ℕ) → (ℕ → ℕ) → Type 0
IsLeft memory retval before refs = (refs ≡ before) ⊎ ((memory ≡ false) × (refs ≡ inc retval before))

abbrev GivesBack : {S : Type 0} → Bool → ℕ → (ℕ → ℕ) → Reply S → Type 0
GivesBack memory retval before (undefined v) =
    IsLeft memory retval before (free_temps v).refs × (v.pool_alive ≡ false)
GivesBack memory retval before _ = Unit {0}

module _ {S : Type 0} (e : Env S) (cb n : ℕ) (q : IsQuiet e cb) (w0 : World S)
    (fine : w0.destroyed ≡ false) (memory : Bool) (retval : ℕ) where
  abbrev G : Reply S → Type 0
  G r = GivesBack memory retval w0.refs r

  abbrev Booked : World S → Type 0
  Booked w = IsBooked cb n (cb ∷ []) w0 n w

  abbrev wasted : World S
  wasted = record w0 { refs = inc retval w0.refs }

  -- One reference more, before and after.
  leaked :
      (w : World S)
      → Booked w
      → IsBooked cb n
          (cb ∷ [])
          (record w0 { refs = inc retval w0.refs })
          n
          (record w { refs = inc retval w.refs })
  leaked w h = record {
    counts = λ a. ground (arith, h.counts a);
    has_sub = h.has_sub;
    filled = h.filled;
    number = h.number;
    kept = h.kept;
    others = h.others;
    registered = h.registered;
    alive = h.alive;
  }

  start_session_fails :
      (timeout : ℤ) (rc : Rc) (w : World S)
      → Booked w
      → G (start_session e cb timeout memory rc retval w)
  unfolding start_session
  start_session_fails timeout rc w h =
      if_cases G memory (λ m. tt)
        (λ m.
          let t =
            close-told e cb n q wasted _ fine
              (tell-IsTold e cb n q wasted "Cannot allocate memory for session" _ (leaked w h)) in
          (inr (m, t.0), t.1))

  destroyed_fails : (v : World S) → IsTold cb w0 v → G (undefined (destroy_pool v))
  unfolding destroy_pool
  destroyed_fails v t = (inl (destroy_pool-told e cb n q w0 v t), refl)

  connected_peer_fails :
      (timeout : ℤ) (r : Rc × Bool × S) (w : World S)
      → Booked w
      → G (connected_peer e cb timeout memory r retval w)
  unfolding connected_peer
  connected_peer_fails timeout (rc, has_connection, outside) w h =
      if_rule G (is_refused rc)
        (destroyed_fails _ (
          if_rule (IsTold cb w0) has_connection
            (let t = tell-IsTold e cb n q w0 "Connection failed" _ h' in
              record { spent = t.spent; done = t.done; registered = t.registered; alive = t.alive })
            (tell-IsTold e cb n q w0 "Connection failed" _ h')))
        (if_rule G has_connection
          (start_session_fails timeout rc _
            (unbooked cb n (cb ∷ []) w0 n w _ h refl refl refl refl refl))
          (destroyed_fails _ (tell-IsTold e cb n q w0 "Connection error" _ h')))
    where
      h' : Booked (record w { outside = outside })
      h' = unbooked cb n (cb ∷ []) w0 n w _ h refl refl refl refl refl

module _ {S : Type 0} (e : Env S) (cb : ℕ) (timeout : ℤ) (d : Dial S) (s : Supply)
    (q : IsQuiet e cb) (w : World S) (no_temps : w.mortals ≡ []) (fine : w.destroyed ≡ false) where
  -- With the pool.
  abbrev pooled : World S
  pooled = record w { pool_alive = true; cleanups = [] }

  dial_fails :
      (extra : ℕ) (peer : Peer)
      → GivesBack (s.memory 10) (s.fresh (extra + 3)) w.refs (
          dial e cb timeout d s extra peer
            (record pooled { callbacks = update w.callbacks cb blank; cleanups = cb ∷ [] }))
  unfolding dial
  dial_fails extra peer =
      if_rule (GivesBack (s.memory 10) (s.fresh (extra + 3)) w.refs) (s.memory 8)
        (if_rule (GivesBack (s.memory 10) (s.fresh (extra + 3)) w.refs) (s.memory 9)
          (connected_peer_fails e cb (extra + 2) q pooled fine (s.memory 10) (s.fresh (extra + 3))
            timeout (d.connect_peer peer filled.outside) filled booked)
          (destroyed_fails e cb (extra + 2) q pooled fine (s.memory 10) (s.fresh (extra + 3)) _
            (tell-IsTold e cb (extra + 2) q pooled _ filled booked)))
        tt
    where
      filled : World S
      filled =
          extra_args cb (λ i. s.fresh (i + 3)) extra
            (first_args cb s (blank_callback cb (extra + 2) s pooled))

      booked : IsBooked cb (extra + 2) (cb ∷ []) pooled (extra + 2) filled
      booked =
          subst (λ k. IsBooked cb (extra + 2) (cb ∷ []) pooled k filled) (omega arith)
            (extra_args-IsBooked cb (extra + 2) (cb ∷ []) pooled extra (λ i. s.fresh (i + 3)) 2 _
              (first_args-IsBooked cb (extra + 2) (cb ∷ []) pooled s 0 _
                (blank_callback-IsBooked cb (extra + 2) s pooled no_temps)))

  with_peer_fails :
      (extra : ℕ) (peer : Made Peer)
      → GivesBack
          (s.memory 10)
          (s.fresh (extra + 3))
          w.refs
          (with_peer e cb timeout d s extra peer pooled)
  unfolding with_peer destroy_pool run_cleanups free_temps dec_all
  with_peer_fails extra (failed line) = (inl (rw no_temps refl), refl)
  with_peer_fails extra (made peer) =
      if_rule (GivesBack (s.memory 10) (s.fresh (extra + 3)) w.refs) (s.memory 6)
        (if_rule (GivesBack (s.memory 10) (s.fresh (extra + 3)) w.refs) (s.memory 7)
          (dial_fails extra peer) (inl (rw no_temps refl), refl))
        (inl (rw no_temps refl), refl)

  module _ (no_pool : w.pool_alive ≡ false) where
    unpooled : (extra : ℕ) → GivesBack (s.memory 10) (s.fresh (extra + 3)) w.refs (undefined w)
    unfolding free_temps dec_all
    unpooled extra = (inl (rw no_temps refl), no_pool)

    with_addresses_fails :
        (bindaddr addr port extra : ℕ)
        → GivesBack
            (s.memory 10)
            (s.fresh (extra + 3))
            w.refs
            (with_addresses e cb timeout d s bindaddr addr port extra w)
    unfolding with_addresses free_temps
    with_addresses_fails bindaddr addr port extra =
        if_rule (GivesBack (s.memory 10) (s.fresh (extra + 3)) w.refs) (s.memory 0)
          (with_peer_fails extra _) ((unpooled extra).0, (unpooled extra).1)

    parsed_fails :
        (bindaddr address : Option ℕ) (port extra : ℕ)
        → GivesBack (s.memory 10) (s.fresh (extra + 3)) w.refs (elim bindaddr [
          | none ↦ undefined (warn "Argument 0 (bind_address) is not an IP address" w)
          | some b ↦ elim address [
            | none ↦ undefined (warn "Argument 1 (address) is not an IP address" w)
            | some a ↦ with_addresses e cb timeout d s b a port extra w
          ]
        ])
    unfolding free_temps
    parsed_fails none address port extra = ((unpooled extra).0, (unpooled extra).1)
    parsed_fails (some b) none port extra = ((unpooled extra).0, (unpooled extra).1)
    parsed_fails (some b) (some a) port extra = with_addresses_fails b a port extra

    abbrev GivesBackIfAny : ℕ → Option (Reply S) → Type 0
    GivesBackIfAny extra none = Unit {0}
    GivesBackIfAny extra (some r) = GivesBack (s.memory 10) (s.fresh (extra + 3)) w.refs r

    -- For a Perl sub that leaves the reference counts, its callback, the temporary scalars, the pool and
    -- the connection alone, and with no temporary scalars, pool or destroyed connection before it:
    -- whenever ngxe_client returns undef, for an address that is none, for want of memory or because
    -- the connection was not made, all reference counts are at the end of its statement what they were, or the
    -- memory for the session was missing and only the scalar of the result, which nobody gets, has one
    -- reference more; and no pool is left.
    pub client_fails :
        (g : Globals) (bind_address address : List ℕ) (port extra : ℕ) (v : World S)
        → client e cb timeout d s g bind_address address port extra w ≡ some (undefined v)
        → IsLeft (s.memory 10) (s.fresh (extra + 3)) w.refs (free_temps v).refs
          × (v.pool_alive ≡ false)
    unfolding client if_initialized
    client_fails g bind_address address port extra v h = subst (GivesBackIfAny extra) h (
        if_rule (GivesBackIfAny extra) g.initialized
          (parsed_fails (bind_inaddr d bind_address) (d.inet_addr address) port extra) tt)
