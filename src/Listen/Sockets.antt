-- ===== src/Listen/Sockets.antt =====
-- ngx_ngxe_open_listening_socket: no socket is lost.
use nginx_engine.Base.{
  ℕ, true, false, ◌||◌, Option, none, some, is_some, List, ◌∷◌, ◌≡◌, refl, ◌⊎◌, inl, inr, arith,
  if_rule, ◌∙◌, ap,
}
use nginx_engine.Listen.{
  Listening, Bound, bound, addr_in_use, bind_refused, Host, Net, erase, close_logged, listen_on,
  open_unix, after_bind, set_nonblocking, set_ipv6only, set_reuseaddr, with_socket,
  open_listening_socket,
}

module _ {S : Type 0} (h : Host S) where
  -- The socket listens and is the one that is new, or nothing is left of the attempt.
  abbrev pub NoneLost : List ℕ → Listening → Listening × Net S → Type 0
  NoneLost before ls r =
      ((s : ℕ) × (r.0.fd ≡ some s) × (r.0.listen ≡ true) × (r.1.opened ≡ s ∷ before))
      ⊎ ((r.0 ≡ ls) × (r.1.opened ≡ before))

  erase_head : (s : ℕ) (xs : List ℕ) → erase s (s ∷ xs) ≡ xs
  erase_head s xs = ground arith

  module _ (before : List ℕ) (s : ℕ) (ls : Listening) where
    abbrev HasNew : Net S → Type 0
    HasNew n = n.opened ≡ s ∷ before

    closed_lem : (n : Net S) → HasNew n → (close_logged h s n).opened ≡ before
    unfolding close_logged
    closed_lem n o =
        if_rule (λ (m : Net S). m.opened ≡ before) (h.close_socket n.outside s).0
          (ap (erase s) o ∙ erase_head s before) (ap (erase s) o ∙ erase_head s before)

    abbrev Good : Listening × Net S → Type 0
    Good r = NoneLost before ls r

    listen_on-NoneLost : (n : Net S) → HasNew n → Good (listen_on h s ls n)
    unfolding listen_on
    listen_on-NoneLost n o =
        if_rule Good (h.listen n.outside s ls.backlog).0 (inl (s, refl, refl, o))
          (inr (refl, closed_lem _ o))

    open_unix-HasNew : (n : Net S) → HasNew n → HasNew (open_unix h ls n)
    unfolding open_unix
    open_unix-HasNew n o = ground arith

    after_bind-NoneLost :
        h.test_config ≡ false → (b : Bound) (n : Net S) → HasNew n → Good (after_bind h s ls b n)
    unfolding after_bind
    after_bind-NoneLost t bound n o = listen_on-NoneLost (open_unix h ls n) (open_unix-HasNew n o)
    after_bind-NoneLost t addr_in_use n o = rw t (inr (refl, closed_lem _ o))
    after_bind-NoneLost t bind_refused n o = inr (refl, closed_lem _ o)

    set_nonblocking-NoneLost :
        h.test_config ≡ false → (n : Net S) → HasNew n → Good (set_nonblocking h s ls n)
    unfolding set_nonblocking
    set_nonblocking-NoneLost t n o =
        if_rule Good h.aio_events (after_bind-NoneLost t (h.bind n.outside s).0 _ o) (
          if_rule Good (h.nonblocking n.outside s).0
            (after_bind-NoneLost t (h.bind (h.nonblocking n.outside s).1 s).0 _ o)
            (inr (refl, closed_lem _ o)))

    set_ipv6only-HasNew : (n : Net S) → HasNew n → HasNew (set_ipv6only h s ls n)
    unfolding set_ipv6only
    set_ipv6only-HasNew n o = ground arith

    set_reuseaddr-NoneLost :
        h.test_config ≡ false → (n : Net S) → HasNew n → Good (set_reuseaddr h s ls n)
    unfolding set_reuseaddr
    set_reuseaddr-NoneLost t n o =
        if_rule Good (h.set_reuseaddr n.outside s).0
          (set_nonblocking-NoneLost t (set_ipv6only h s ls _) (set_ipv6only-HasNew _ o))
          (inr (refl, closed_lem _ o))

  -- Outside of a configuration test, on every branch, whatever fails: either the listening
  -- structure has a new socket that listens, and that socket alone was added to the open ones, or
  -- the structure is as it was and no socket more is open than before.
  pub open_listening_socket-NoneLost :
      (ls : Listening) (n : Net S)
      → h.test_config ≡ false
      → NoneLost n.opened ls (open_listening_socket h ls n)
  unfolding open_listening_socket
  open_listening_socket-NoneLost ls n t =
      if_rule (NoneLost n.opened ls) (ls.ignore || is_some ls.fd || ls.inherited) (inr (refl, refl))
        (attempt (h.socket n.outside).0)
    where
      attempt :
          (s : Option ℕ)
          → NoneLost n.opened ls
              (with_socket h s ls (record n { outside = (h.socket n.outside).1 }))
      attempt none = inr (refl, refl)
      attempt (some s) =
          set_reuseaddr-NoneLost n.opened s ls t
            (record n { outside = (h.socket n.outside).1; opened = s ∷ n.opened }) refl
