-- ===== src/Api.antt =====
-- The functions of Engine.xs that Perl code calls: what they share. A function gives the state after
-- it and what Perl sees of it, `none` if the fuel of the writer that it starts runs out.
pub mod Creation
pub mod Reader
pub mod Writer
pub mod Clients
pub mod Process
pub mod Ready
pub mod Pairs
pub mod Loop
pub mod Servers
pub mod Putting
pub mod Connecting
pub mod Told
pub mod Failing
pub mod Timers
pub mod Armed
pub mod Debts
pub mod Ticking
pub mod Calls
pub mod Books
pub mod Refs
pub mod Balance
pub mod Rules
pub mod Coherence
pub mod Refusal
use nginx_engine.Base.{
  ℕ, ℤ, pos, negsuc, ◌+◌, ◌%◌, ◌==◌, String, Bool, Option, none, some, List, [], ◌∷◌, if◌then◌else◌,
}
use nginx_engine.State.{World, warned, crashed, Pointer, null, connection}
use nginx_engine.Callback.{inc, dec_all}

-- The static variables of Engine.xs, and what two of the C files keep of the buffer size.
pub record Globals : Type 0 where
  pub initialized : Bool
  pub initialized_signals : Bool
  pub reader_buffer_size : ℤ
  pub connection_bufsize : ℤ
  pub svlen : ℤ

-- `croak`, XSRETURN_UNDEF, the end of a function without a value, with a number, and with the pointer
-- that it has made, and a write through a NULL pointer.
pub data Reply (S : Type 0) : Type 0 where
  croaked : String → World S → Reply S
  undefined : World S → Reply S
  returned : World S → Reply S
  answered : ℤ → World S → Reply S
  handed : World S → Reply S
  aborted : World S → Reply S

abbrev pub state_of : {S : Type 0} → Reply S → World S
state_of (croaked line w) = w
state_of (undefined w) = w
state_of (returned w) = w
state_of (answered n w) = w
state_of (handed w) = w
state_of (aborted w) = w

-- What nginx and Perl allocate in one call: whether the i-th allocation from the pool succeeds, and the
-- names of the new scalars, which nothing refers to.
pub record Supply : Type 0 where
  pub memory : ℕ → Bool
  pub fresh : ℕ → ℕ

-- `start & NGXE_START`
abbrev pub has_start : ℤ → Bool
has_start (pos n) = n % 2 == 1
has_start (negsuc n) = n % 2 == 0

-- The value of an optional last argument.
abbrev pub optional : List ℤ → ℤ → ℤ
optional [] old = old
optional (t ∷ l) old = t

module _ {S : Type 0} where
  abbrev pub returning : Option (World S) → Option (Reply S)
  returning none = none
  returning (some w) = some (returned w)

  abbrev pub answering_one : Option (World S) → Option (Reply S)
  answering_one none = none
  answering_one (some w) = some (answered (pos 1) w)

  abbrev pub warn : String → World S → World S
  warn line w = record w { trace = warned line ∷ w.trace }

  -- Arguments behind the optional one are ignored.
  abbrev pub warn_many : String → List ℤ → World S → World S
  warn_many line (a ∷ b ∷ l) w = warn line w
  warn_many line _ w = w

  abbrev pub abort : World S → Reply S
  abort w = aborted (record w { trace = crashed ∷ w.trace })

  -- A session is in the pool of its connection.
  abbrev pub touch : World S → World S
  touch w = record w { stale_reads = if w.pool_alive then w.stale_reads else w.stale_reads + 1 }

  -- sv_2mortal(newSV…); SvREFCNT_inc(…);
  unfoldable pub mint : ℕ → World S → World S
  mint a w = record w { refs = inc a (inc a w.refs); mortals = a ∷ w.mortals }

  abbrev pub share : ℕ → World S → World S
  share a w = record w { refs = inc a w.refs }

  -- The end of a statement of the Perl program.
  unfoldable pub free_temps : World S → World S
  free_temps w = record w { refs = dec_all w.mortals w.refs; mortals = [] }

  -- `if (ngxe_initialized != 1) { croak(…); }`
  unfoldable pub if_initialized :
      Globals → (World S → Option (Reply S)) → World S → Option (Reply S)
  if_initialized g next w =
      if g.initialized then next w else some (croaked "You need to call ngxe_init() first" w)

  -- The three tests that the functions on sessions begin with.
  unfoldable pub with_session :
      Globals → Pointer → (World S → Option (Reply S)) → World S → Option (Reply S)
  unfolding if_initialized
  with_session g p next = if_initialized g (λ w. elim p [
    | null ↦ some (undefined (warn "Argument 0 (connection) is not a valid connection pointer" w))
    | connection ↦
        if w.has_pool
        then if w.has_session
          then next (touch w)
          else some (undefined (warn "Connection doesn't have a session pointer" w))
        else some (undefined (warn "Argument 0 (connection) is not a valid connection pointer" w))
  ])
