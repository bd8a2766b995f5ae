-- ===== src/Server/Laws.antt =====
-- ngxe_server_create and ngxe_server_init_connection of ngxe_connection.c.
use nginx_engine.Base.{
  ℕ, Bool, true, false, Option, none, some, List, ◌∷◌, if◌then◌else◌, ◌≡◌, refl, inl, inr,
  Bool-cases, String,
}
use nginx_engine.State.{World, Env, connection}
use nginx_engine.Connection.Close.{IsCoherent, close-IsCoherent}
use nginx_engine.Connection.Coherence.{KeepCoherent, callback-IsCoherent}
use nginx_engine.Listen.{
  Listening, Host, Net, retire, open_listening_socket, add_listening_connection, connect_listening,
}
use nginx_engine.Server.{start_listening, with_listening, server_create, server_init_connection}

module _ {S : Type 0} (h : Host S) where
  -- The connection of a structure accepts, if there is a structure.
  abbrev pub Accepts : Option Listening × Net S → Type 0
  Accepts (none, n) = Unit {0}
  Accepts (some ls, n) =
      (c : ℕ) × (rest : List ℕ) × (ls.connection ≡ some c) × (n.accepts ≡ c ∷ rest)

  abbrev IsAdded : Bool × Listening × Net S → Type 0
  IsAdded (ok, ls, n) = ok ≡ true → Accepts (some ls, n)

  connect_listening-IsAdded :
      (c : Option ℕ) (ls : Listening) (n : Net S) → IsAdded (connect_listening h c ls n)
  unfolding connect_listening
  connect_listening-IsAdded none ls n = λ t. cc
  connect_listening-IsAdded (some c) ls n = elim (Bool-cases (retire h ls.previous n).0) [
    | inl kept ↦ rw kept (λ t. (c, (retire h ls.previous n).1.accepts, refl, refl))
    | inr lost ↦ rw lost (λ t. cc)
  ]

  Accepts-if :
      (r : Bool × Listening × Net S) (n : Net S)
      → IsAdded r
      → Accepts (if r.0 then (some r.1, r.2) else (none, n))
  Accepts-if (true, ls, m) n k = k refl
  Accepts-if (false, ls, m) n k = tt

  add_listening_connection-IsAdded :
      (ls : Listening) (n : Net S) → IsAdded (add_listening_connection h ls n)
  unfolding add_listening_connection
  add_listening_connection-IsAdded ls n =
      connect_listening-IsAdded (h.get_connection n.outside ls.fd).0 ls _

  with_listening-Accepts : (ls : Option Listening) (n : Net S) → Accepts (with_listening h ls n)
  unfolding with_listening start_listening
  with_listening-Accepts none n = tt
  with_listening-Accepts (some ls) n =
      let o = open_listening_socket h (record ls { pool_size = 256 }) n in
      Accepts-if (add_listening_connection h o.0 o.1) _ (add_listening_connection-IsAdded o.0 o.1)

  -- On every branch: a listening structure that ngxe_server_create returns has a connection, and the
  -- read event of that connection was given the handler that accepts.
  pub server_create-Accepts :
      (memory : ℕ → Bool) (addr port : ℕ) (n : Net S) → Accepts (server_create h memory addr port n)
  unfolding server_create
  server_create-Accepts memory addr port n = elim (Bool-cases (memory 0)) [
    | inl a ↦ rw a (elim (Bool-cases (memory 1)) [
      | inl b ↦ rw b (with_listening-Accepts _ n)
      | inr b ↦ rw b tt
    ])
    | inr a ↦ rw a tt
  ]

module _ {S : Type 0} (e : Env S) where
  -- If Perl subs and native handlers keep a connection coherent, the handler of an accepted
  -- connection does, whether or not the session is allocated.
  pub server_init_connection-IsCoherent :
      KeepCoherent e
      → (memory : Bool) (cb : ℕ) (address : String) (w : World S) → IsCoherent w
      → IsCoherent (server_init_connection e memory cb address w)
  unfolding server_init_connection
  server_init_connection-IsCoherent k true cb address w i =
      callback-IsCoherent e k cb false _ (record { pool = i.pool; once = i.once })
  server_init_connection-IsCoherent k false cb address w i =
      close-IsCoherent e connection _ (record { pool = i.pool; once = i.once })
