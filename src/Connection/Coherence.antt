-- ===== src/Connection/Coherence.antt =====
-- Every operation of a connection keeps it coherent, if the Perl subs and the native handlers do.
use nginx_engine.Base.{ℕ, Bool, true, Option, none, some, arith}
use nginx_engine.State.{World, Env, Pointer, null, connection, ErrorValue, reader_handler}
use nginx_engine.Callback.{callback_dec, push_args, pop_args, callback, call_perl}
use nginx_engine.Callback.Rule.{callback_rule}
use nginx_engine.Connection.{
  del_timer, set_error, fail, handle_read, handle_write, reader_start, reader_stop, writer_stop,
  start_error,
}
use nginx_engine.Connection.Close.{IsCoherent, close-IsCoherent}

-- What is asked of the Perl subs and the native handlers.
pub record KeepCoherent {S : Type 0} (e : Env S) : Type 0 where
  pub sub : (k : ℕ) (w : World S) → IsCoherent w → IsCoherent (e.call_sv k w)
  pub native : (f : ℕ) (w : World S) → IsCoherent w → IsCoherent (e.call_native f w)

module _ {S : Type 0} (e : Env S) (k : KeepCoherent e) where
  callback_dec-IsCoherent : (cb : ℕ) (w : World S) → IsCoherent w → IsCoherent (callback_dec cb w)
  unfolding callback_dec
  callback_dec-IsCoherent cb w h = ground arith

  call_perl-IsCoherent :
      (cb sub : ℕ) (d : Bool) (w : World S) → IsCoherent w → IsCoherent (call_perl e cb sub d w)
  unfolding call_perl
  call_perl-IsCoherent cb sub d w h = ground (
    arith,
    k.sub cb (push_args cb sub w),
    callback_dec-IsCoherent cb
        (pop_args cb (w.callbacks cb).args_n (e.call_sv cb (push_args cb sub w))),
  )

  pub callback-IsCoherent :
      (cb : ℕ) (d : Bool) (w : World S) → IsCoherent w → IsCoherent (callback e cb d w)
  callback-IsCoherent cb d w h =
      callback_rule e IsCoherent cb d w (λ sub. call_perl-IsCoherent cb sub d w h)
        (λ f. k.native f w h) h

  pub fail-IsCoherent :
      (cb : ℕ) (err : ErrorValue) (w : World S) → IsCoherent w → IsCoherent (fail e cb err w)
  unfolding fail
  fail-IsCoherent cb err w h =
      close-IsCoherent e connection (callback e cb true (set_error cb err w))
        (callback-IsCoherent cb true (set_error cb err w) (ground arith))

  pub start_error-IsCoherent :
      (cb : Option ℕ) (w : World S) → IsCoherent w → IsCoherent (start_error e cb w)
  unfolding start_error
  start_error-IsCoherent none w h = ground arith
  start_error-IsCoherent (some cb) w h = fail-IsCoherent cb _ w h

  pub reader_start-IsCoherent :
      (p : Pointer) (w : World S) → IsCoherent w → IsCoherent (reader_start e p w)
  unfolding reader_start
  reader_start-IsCoherent null w h = ground arith
  reader_start-IsCoherent connection w h = ground (
    arith,
    start_error-IsCoherent w.reader_callback (record w {
      read = record (del_timer w.read) { handler = reader_handler };
      outside = (e.handle_read_event w.outside).1;
    }),
  )

  pub reader_stop-IsCoherent :
      (p : Pointer) (w : World S) → IsCoherent w → IsCoherent (reader_stop p w)
  unfolding reader_stop
  reader_stop-IsCoherent null w h = ground arith
  reader_stop-IsCoherent connection w h = ground arith

  pub writer_stop-IsCoherent :
      (p : Pointer) (w : World S) → IsCoherent w → IsCoherent (writer_stop p w)
  unfolding writer_stop
  writer_stop-IsCoherent null w h = ground arith
  writer_stop-IsCoherent connection w h = ground arith

  pub handle_read-IsCoherent : (w : World S) → IsCoherent w → IsCoherent (handle_read e w).1
  unfolding handle_read
  handle_read-IsCoherent w h = ground arith

  pub handle_write-IsCoherent : (w : World S) → IsCoherent w → IsCoherent (handle_write e w).1
  unfolding handle_write
  handle_write-IsCoherent w h = ground arith
