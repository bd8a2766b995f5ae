-- ===== src/Api/Process.antt =====
-- ngxe_init, ngxe_loop, ngxe_bufsize and ngxe_reader_init_buffer_size of Engine.xs.
use nginx_engine.Base.{
  ℕ, zero, suc, ℤ, pos, negsuc, String, Bool, true, false, ◌||◌, Option, none, some, List, [], ◌∷◌,
  if◌then◌else◌, ltb,
}
use nginx_engine.Boot.{Boot, Calls}
use nginx_engine.Boot as Start
use nginx_engine.Api.{Globals}

-- SvIV(ST(1)) and SvIV(ST(2)), or what is there without them. Arguments behind these are not looked at.
abbrev pub connections_of : List ℤ → ℤ
connections_of [] = pos 512
connections_of (n ∷ rest) = n

abbrev pub size_of : List ℤ → ℤ → ℤ
size_of (n ∷ size ∷ rest) old = size
size_of _ old = old

-- `if (connections < 16) { …; connections = 16; }`
abbrev pub at_least_16 : ℤ → ℕ
at_least_16 (pos n) = if ltb n 16 then 16 else n
at_least_16 (negsuc n) = 16

-- Whether the line "Number of connections is too low, using 16 instead" is printed.
abbrev pub is_low : ℤ → Bool
is_low (pos n) = ltb n 16
is_low (negsuc n) = true

-- How ngxe_init ends: `croak`, or with the warning or without it.
pub data Started (S : Type 0) : Type 0 where
  refused : Globals → Boot S → Started S
  started : Bool → Globals → Boot S → Started S

-- The variables that the loop looks at.
pub record Process (S : Type 0) : Type 0 where
  pub terminate : Bool
  pub quit : Bool
  pub reconfigure : Bool
  pub reopen : Bool
  pub outside : S

-- How ngxe_loop ends: `croak` with a line, or because of one of the signals.
pub data Ended (S : Type 0) : Type 0 where
  croaked : String → Globals → Process S → Ended S
  stopped : Globals → Process S → Ended S

module _ {S : Type 0} where
  -- ngxe_init. `no_name` says whether the file name is empty; `args` are the arguments behind it. What
  -- ngx_ngxe_init returns is not looked at.
  unfoldable pub ngxe_init : Calls S → Bool → List ℤ → Globals → Boot S → Started S
  unfolding Start.init
  ngxe_init c no_name args g b =
      if g.initialized
      then refused g b
      else (let size = size_of args g.reader_buffer_size in
          let (code, b') = Start.init c no_name false (at_least_16 (connections_of args)) b in
          started (is_low (connections_of args))
            (record g {
              reader_buffer_size = size;
              connection_bufsize = size;
              svlen = size;
              initialized = true;
            })
            b')

  module _ (process_events : Process S → Process S) (reopen_files : S → S) where
    -- The end of a round that goes on.
    unfoldable pub go_on : Process S → Process S
    go_on p =
        let q = if p.reconfigure then record p { reconfigure = false } else p in
        if q.reopen then record q { reopen = false; outside = reopen_files q.outside } else q

    -- The `for (;;)` of ngxe_loop, at most `fuel` rounds of it.
    unfoldable pub rounds : ℕ → Process S → Option (Process S)
    unfolding go_on
    rounds zero p = none
    rounds (suc fuel) p =
        let q = process_events p in
        let rest = rounds fuel (go_on q) in if q.terminate || q.quit then some q else rest

    abbrev pub ended : Globals → Option (Process S) → Option (Ended S)
    ended g none = none
    ended g (some p) = some (stopped g p)

    -- ngxe_loop. `init_signals` says whether ngx_ngxe_init_signals returns 0.
    unfoldable pub ngxe_loop : ℕ → Bool → Globals → Process S → Option (Ended S)
    unfolding rounds
    ngxe_loop fuel init_signals g p =
        if g.initialized
        then if g.initialized_signals
          then ended g (rounds fuel p)
          else if init_signals
          then ended (record g { initialized_signals = true }) (rounds fuel p)
          else some (croaked "Failed to initialize signals" g p)
        else some (croaked "You need to call ngxe_init() first" g p)

-- ngxe_bufsize
unfoldable pub ngxe_bufsize : Globals → ℤ
ngxe_bufsize g = g.reader_buffer_size

-- ngxe_reader_init_buffer_size, `none` for its `croak`
unfoldable pub ngxe_reader_init_buffer_size : ℤ → Globals → Option Globals
ngxe_reader_init_buffer_size size g =
    if g.initialized then some (record g { reader_buffer_size = size }) else none
