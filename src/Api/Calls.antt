-- ===== src/Api/Calls.antt =====
-- The functions of Engine.xs on connections, as one type of calls that Perl code can make.
use nginx_engine.Base.{ℕ, ℤ, Bool, Option, List}
use nginx_engine.State.{World, Env, Buffer, Pointer}
use nginx_engine.Api.{Globals, Reply, Supply}
use nginx_engine.Api.Reader
use nginx_engine.Api.Writer

-- `sets_reader start timeout extra cb supply`, `sets_writer start timeout is_pv buffer extra cb supply`
pub data Call : Type 0 where
  sets_reader : ℤ → ℤ → ℕ → ℕ → Supply → Call
  reader_times starts_reader : List ℤ → Call
  stops_reader stops_reader_starts_writer : Call
  sets_writer : ℤ → ℤ → Bool → Buffer → ℕ → ℕ → Supply → Call
  writer_times : List ℤ → Call
  puts : Bool → Buffer → Call
  starts_writer : List ℤ → Call
  stops_writer stops_writer_starts_reader closes : Call

-- The call with a pointer. `fuel` is that of the writer that it may start.
unfoldable pub perform :
    {S : Type 0} → Env S → Globals → ℕ → Call → Pointer → World S → Option (Reply S)
unfolding Reader.reader Reader.reader_timeout Reader.start_reader Reader.stop_reader
    Reader.stop_reader_start_writer Writer.writer Writer.writer_timeout Writer.writer_buffer_set
    Writer.start_writer Writer.stop_writer Writer.stop_writer_start_reader Writer.ngxe_close
perform e g fuel (sets_reader start t extra cb s) p = Reader.reader e g p start t extra cb s
perform e g fuel (reader_times args) p = Reader.reader_timeout e g p args
perform e g fuel (starts_reader args) p = Reader.start_reader e g p args
perform e g fuel stops_reader p = Reader.stop_reader e g p
perform e g fuel stops_reader_starts_writer p = Reader.stop_reader_start_writer e g fuel p
perform e g fuel (sets_writer start t is_pv b extra cb s) p =
    Writer.writer e g fuel p start t is_pv b extra cb s
perform e g fuel (writer_times args) p = Writer.writer_timeout e g p args
perform e g fuel (puts is_pv b) p = Writer.writer_buffer_set e g fuel p is_pv b
perform e g fuel (starts_writer args) p = Writer.start_writer e g fuel p args
perform e g fuel stops_writer p = Writer.stop_writer e g p
perform e g fuel stops_writer_starts_reader p = Writer.stop_writer_start_reader e g p
perform e g fuel closes p = Writer.ngxe_close e g p
