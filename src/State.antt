-- ===== src/State.antt =====
-- The data of ngxe_connection.h, ngxe_xs.h and the fields of nginx's `ngx_connection_t` and
-- `ngx_event_t` that ngxe_connection.c reads or writes, and what that code calls.
use nginx_engine.Base.{ℕ, ℤ, Bool, Option, List, String}

-- The functions that `ev->handler` is set to.
pub data Handler : Type 0 where
  dummy_handler reader_handler writer_handler client_init_handler interval_handler timeout_handler :
      Handler

-- `ngx_event_t`. `timer` is `timer_set`, with the delay that the timer was added with.
pub record Event : Type 0 where
  pub handler : Handler
  pub timer : Option ℤ
  pub ready : Bool
  pub timedout : Bool
  pub error : Bool

-- What `$error` holds: `sv_setiv`, `sv_setpv`, `SvIOK_on` give one scalar both values.
pub record ErrorValue : Type 0 where
  pub iv : ℤ
  pub pv : String

-- `ngxe_callback_t`. Scalars are named by numbers. `error` and `min_len` are the values of the
-- scalars `args[1]` and `args[4]`; `native_handler` names a C function.
pub record Callback : Type 0 where
  pub handler : Option ℕ
  pub args : List ℕ
  pub args_n : ℕ
  pub decremented : Bool
  pub native_handler : Option ℕ
  pub error : ErrorValue
  pub min_len : ℤ

-- A scalar that holds a string: its `SvCUR` bytes and the `SvLEN` bytes allocated for it.
pub record Pv : Type 0 where
  pub bytes : List ℕ
  pub len : ℕ

-- An element of an array that is written: anything with SvROK, with the SvCUR bytes that the code reads
-- of what it refers to (it turns SvPOK on and looks at no type), or anything else. An array with
-- a hole, for which av_fetch returns NULL and the code goes through it, has no counterpart.
pub data Item : Type 0 where
  scalar : List ℕ → Item
  not_ref : Item

-- What the scalar `s->writer_buffer` holds: a string, undef, or a reference (`SvROK`) to a scalar
-- of type SVt_PV, to an array, or to anything else.
pub data Buffer : Type 0 where
  string : List ℕ → Buffer
  undef : Buffer
  scalar_ref : List ℕ → Buffer
  array_ref : List Item → Buffer
  other_ref : Buffer

-- What happened, newest first: a Perl sub was called with a value of `$error`, the connection was
-- closed, a line went to the log, the C code went through a NULL pointer, Perl printed a warning.
pub data Action : Type 0 where
  called : ℕ → ErrorValue → Action
  closed : Action
  logged : String → Action
  crashed : Action
  warned : String → Action

-- One connection with its session, the callbacks that live in its pool, and the reference counts of
-- the scalars. `has_pool`, `has_session`, `has_reader_buffer` and `has_writer_buffer` say whether
-- the pointers `c->pool`, `c->data`, `s->reader_buffer` and `s->writer_buffer` are not NULL;
-- `reader_scalar` and `writer_scalar` name the scalars that the last two point to. `mortals` names
-- the scalars that lose a reference when the current statement of the Perl program ends. `refs` are
-- the counts without what a reference held by the write buffer adds to the count of the thing that
-- it refers to: this one comes with the value of the buffer (sv_setsv, newSVsv) and goes with it
-- (SvREFCNT_dec(SvRV(s->writer_buffer)), sv_setsv, the end of the scalar). `writer_offset` are the
-- 32 bits of an `int`; `writer_index`, also an `int`, counts elements, and arrays have fewer than 2
-- to the 31 of them, as av_len must fit into an I32. `timer_msec` and `timer_callback` are the fields
-- `msec` and `callback` of the `ngxe_interval_t` that `c->data` of a timer points to. `outside` is
-- the state of what nginx and the system keep. Not in the program: `trace`; `stale_reads`, the
-- number of times that a callback or a session was read after its pool was destroyed; `received`
-- and `sent`, the bytes that went through `recv` and `send`; `consumed` and `queued`, the bytes
-- that Perl subs have taken from the read buffer and have put into the write buffer.
pub record World (S : Type 0) : Type 0 where
  pub read : Event
  pub write : Event
  pub destroyed : Bool
  pub timed_out : Bool
  pub has_pool : Bool
  pub has_session : Bool
  pub callbacks : ℕ → Callback
  pub reader_callback : Option ℕ
  pub has_reader_buffer : Bool
  pub reader_scalar : ℕ
  pub reader_buffer : Pv
  pub reader_timeout : ℤ
  pub reader_flags : ℤ
  pub writer_callback : Option ℕ
  pub has_writer_buffer : Bool
  pub writer_scalar : ℕ
  pub writer_buffer : Buffer
  pub writer_timeout : ℤ
  pub writer_offset : ℕ
  pub writer_index : ℕ
  pub timer_msec : ℤ
  pub timer_callback : ℕ
  pub refs : ℕ → ℕ
  pub mortals : List ℕ
  pub pool_alive : Bool
  pub cleanups : List ℕ
  pub stale_reads : ℕ
  pub trace : List Action
  pub received : List ℕ
  pub sent : List ℕ
  pub consumed : List ℕ
  pub queued : List ℕ
  pub outside : S

-- `data []` is the 0 of a closed peer, `again` is NGX_AGAIN, `failed` is NGX_ERROR.
pub data Received : Type 0 where
  data_read : List ℕ → Received
  read_again read_failed : Received

pub data Sent : Type 0 where
  accepted : ℕ → Sent
  write_again write_failed : Sent

-- What the program calls and does not implement. `recv` and `send` return what the call gave and
-- the event's `ready` flag after it. An event is handled if the `Bool` is true (NGX_OK).
-- `grow len n` is the `SvLEN` of a scalar of that length after SvGROW(sv, n). `stray_bytes` and
-- `stray_items` are what the C code reads when it takes a scalar for a string, or an array, that
-- it is not; `bytes_before n` are the `n` bytes of the memory in front of a string. The Perl sub of a callback may change all that it can reach.
pub record Env (S : Type 0) : Type 0 where
  pub recv : S → ℕ → Received × Bool × S
  pub send : S → List ℕ → Sent × Bool × S
  pub handle_read_event : S → Bool × S
  pub handle_write_event : S → Bool × S
  pub close_connection : S → S
  pub free_connection : S → S
  pub call_sv : ℕ → World S → World S
  pub call_native : ℕ → World S → World S
  pub pagesize : ℕ
  pub grow : ℕ → ℕ → ℕ
  pub stray_bytes : Buffer → List ℕ
  pub bytes_before : ℕ → List ℕ
  pub stray_items : Buffer → List Item

-- A `ngx_connection_t *` that Perl code passes in.
pub data Pointer : Type 0 where
  null connection : Pointer
