-- ===== src/Writer/Frame/Rules.antt =====
-- What a property that the writer's own steps do not touch has to survive, and the steps that the
-- three handlers share.
use nginx_engine.Base.{ℕ, Bool, false, ◌&&◌, Option, is_some, List, String, if_rule}
use nginx_engine.State.{Event, Buffer, World, Env, connection, ErrorValue}
use nginx_engine.Callback.{callback}
use nginx_engine.Connection.{fail, log, reader_start, start_error}
use nginx_engine.Writer.Blocks.{Jump, time_out, wait_write, retry_write, restart_reader}
use nginx_engine.Writer.Drive.{target}
use nginx_engine.Writer.Scalar.{reset_offset}

-- `P` does not depend on what the writer itself changes, and survives the calls that it makes.
pub record IsFrame {ℓ} {S : Type 0} (e : Env S) (P : World S → Type ℓ) : Type ℓ where
  pub steps :
      (w : World S) (r v : Event) (t : Bool) (b : Buffer) (o i : ℕ) (x : List ℕ) (s : S)
      → P w
      → P (record w {
        read = r;
        write = v;
        timed_out = t;
        writer_buffer = b;
        writer_offset = o;
        writer_index = i;
        sent = x;
        outside = s;
      })
  pub lines : (w : World S) (line : String) → P w → P (log line w)
  pub calls : (cb : ℕ) (w : World S) → P w → P (callback e cb false w)
  pub fails : (cb : ℕ) (err : ErrorValue) (w : World S) → P w → P (fail e cb err w)
  pub starts : (cb : Option ℕ) (w : World S) → P w → P (start_error e cb w)
  pub reads : (w : World S) → P w → P (reader_start e connection w)

module _ {ℓ} {S : Type 0} (e : Env S) (P : World S → Type ℓ) (f : IsFrame e P) where
  abbrev pub Q : Jump S → Type ℓ
  Q j = P (target j)

  -- A step that changes the write event and the outside.
  pub wrote : (w : World S) (v : Event) (s : S) → P w → P (record w { write = v; outside = s })
  wrote w v s p =
      f.steps w w.read v w.timed_out w.writer_buffer w.writer_offset w.writer_index w.sent s p

  pub placed : (w : World S) (o i : ℕ) → P w → P (record w { writer_offset = o; writer_index = i })
  placed w o i p = f.steps w w.read w.write w.timed_out w.writer_buffer o i w.sent w.outside p

  -- Bytes were sent, and some of the buffer is left.
  pub moved :
      (w : World S) (v : Event) (o : ℕ) (x : List ℕ)
      → P w
      → P (record w { write = v; writer_offset = o; sent = x })
  moved w v o x p = f.steps w w.read v w.timed_out w.writer_buffer o w.writer_index x w.outside p

  module _ (cb : ℕ) where
    pub time_out_frame : (w : World S) → P w → P (time_out e cb w)
    unfolding time_out
    time_out_frame w p = f.fails cb _ _ (f.lines _ _ (f.steps w _ _ _ _ _ _ _ _ p))

    module _ (reset : World S → World S) (kept : (w : World S) → P w → P (reset w)) where
      pub wait_write_frame : (w : World S) → P w → P (wait_write e cb reset w)
      unfolding wait_write
      wait_write_frame w p =
          if_rule P (e.handle_write_event w.outside).0 (wrote w _ _ p)
            (f.fails cb _ _ (kept _ (wrote w _ _ p)))

      pub retry_write_frame : (w : World S) → P w → Q (retry_write e cb reset w)
      unfolding retry_write
      retry_write_frame w p =
          if_rule Q (e.handle_write_event w.outside).0
            (if_rule Q w.write.ready (wrote w _ _ p) (wrote w _ _ p))
            (f.fails cb _ _ (kept _ (wrote w _ _ p)))

    pub restart_reader_frame : (w : World S) → P w → P (restart_reader e cb w)
    unfolding restart_reader
    restart_reader_frame w p =
        if_rule P (is_some w.reader_callback && w.has_reader_buffer)
          (f.reads _ (wrote w _ w.outside p)) p

    pub reset_offset_frame : (w : World S) → P w → P (reset_offset w)
    reset_offset_frame w p = placed w _ w.writer_index p
