-- ===== src/Tests.antt =====
-- One connection of a small concrete system, runs of the handlers on it, and the theorems applied
-- to it. `outside` is the number of calls of recv and send that are still answered with data.
mod Writers
mod Readers
mod Callbacks
mod Sockets
mod Starts
mod Calls
mod Kept
mod Lives
mod Echoes
mod Puts
mod Ticks
mod Accepts
mod Ends
use nginx_engine.Base.{
  ℕ, zero, suc, ◌+◌, pos, Bool, true, false, Option, none, some, is_some, List, [], ◌∷◌, ◌++◌, take,
  length, leb, ◌<◌, arith, if◌then◌else◌, ◌≡◌, refl,
}
use nginx_engine.Writer.Stream.Rules.{IsPart}
use nginx_engine.State.{
  Event, dummy_handler, reader_handler, writer_handler, Callback, ErrorValue, World, Env, Received,
  data_read, read_again, Sent, accepted, write_again, undef, Buffer,
}

-- Two bytes are accepted at once, and two bytes are received.
abbrev pub small_recv : ℕ → ℕ → Received × Bool × ℕ
small_recv zero n = (read_again, false, 0)
small_recv (suc s) n = (data_read (take n (65 ∷ 66 ∷ [])), true, s)

abbrev pub small_send : ℕ → List ℕ → Sent × Bool × ℕ
small_send zero b = (write_again, false, 0)
small_send (suc s) b = (accepted (length (take 2 b)), true, s)

pub small_send-IsPart : (s : ℕ) (b : List ℕ) → IsPart (small_send s b).0 b
small_send-IsPart zero b = tt
small_send-IsPart (suc s) [] = omega arith
small_send-IsPart (suc s) (x ∷ []) = omega arith
small_send-IsPart (suc s) (x ∷ y ∷ b) = omega arith

-- The system with a given Perl sub for all callbacks.
abbrev pub env : (World ℕ → World ℕ) → Env ℕ
env sub = record {
  recv = small_recv;
  send = small_send;
  handle_read_event = λ s. (true, s);
  handle_write_event = λ s. (true, s);
  close_connection = λ s. s;
  free_connection = λ s. s;
  call_sv = λ k. sub;
  call_native = λ f w. w;
  pagesize = 4096;
  grow = λ len n. if leb len n then n else len;
  stray_bytes = λ b. [];
  bytes_before = λ n. [];
  stray_items = λ b. [];
}

-- The sub takes all that was read.
abbrev pub take_all : World ℕ → World ℕ
take_all w = record w {
  consumed = w.consumed ++ w.reader_buffer.bytes;
  reader_buffer = record w.reader_buffer { bytes = [] };
}

-- The sub writes a buffer with these bytes.
abbrev pub put : List ℕ → Buffer → World ℕ → World ℕ
put bytes b w = record w {
  writer_buffer = b;
  writer_offset = 0;
  writer_index = 0;
  timer_msec = pos 0;
  timer_callback = 0;
  queued = w.queued ++ bytes;
}

abbrev pub idle : Event
idle = record {
  handler = dummy_handler;
  timer = none;
  ready = true;
  timedout = false;
  error = false;
}

abbrev pub no_error : ErrorValue
no_error = record { iv = pos 0; pv = "" }

abbrev pub callback_of : ℕ → Callback
callback_of k = record {
  handler = some 5;
  args = 1 ∷ 2 ∷ 3 ∷ 4 ∷ 6 ∷ [];
  args_n = 5;
  decremented = false;
  native_handler = none;
  error = no_error;
  min_len = pos 2;
}

-- A connection that writes a buffer.
abbrev pub writing : ℕ → List ℕ → Buffer → World ℕ
writing answers queued b = record {
  read = record idle { handler = dummy_handler };
  write = record idle { handler = writer_handler };
  destroyed = false;
  timed_out = false;
  has_pool = true;
  has_session = true;
  callbacks = callback_of;
  reader_callback = some 0;
  has_reader_buffer = true;
  reader_scalar = 3;
  reader_buffer = record { bytes = []; len = 4 };
  reader_timeout = pos 15;
  reader_flags = pos 1;
  writer_callback = some 1;
  has_writer_buffer = true;
  writer_scalar = 4;
  writer_buffer = b;
  writer_timeout = pos 20;
  writer_offset = 0;
  writer_index = 0;
  timer_msec = pos 0;
  timer_callback = 0;
  refs = λ a. 3;
  mortals = [];
  pool_alive = true;
  cleanups = 0 ∷ 1 ∷ [];
  stale_reads = 0;
  trace = [];
  received = [];
  sent = [];
  consumed = [];
  queued = queued;
  outside = answers;
}

-- A connection that reads.
abbrev pub reading : ℕ → World ℕ
reading answers =
    let w = writing answers [] undef in
    record w {
      read = record w.read { handler = reader_handler };
      write = record w.write { handler = dummy_handler };
    }

abbrev pub end_of : Option (World ℕ) → World ℕ
end_of none = reading 0
end_of (some w) = w

pub some-end_of : (o : Option (World ℕ)) → is_some o ≡ true → o ≡ some (end_of o)
some-end_of none h = cc
some-end_of (some w) h = refl

-- The socket takes bytes as often as there are answers.
pub send_less :
    (s : ℕ) (b : List ℕ) (n : ℕ) → (small_send s b).0 ≡ accepted (suc n) → (small_send s b).2 < s
send_less zero b n h = absurd cc
send_less (suc s) b n h = omega arith

pub send_waits :
    (s : ℕ) (b : List ℕ) → (small_send s b).0 ≡ write_again → (small_send s b).1 ≡ false
send_waits zero b h = refl
send_waits (suc s) b h = absurd cc
