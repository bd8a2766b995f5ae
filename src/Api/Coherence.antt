-- ===== src/Api/Coherence.antt =====
-- Every call of Engine.xs on a connection keeps it coherent.
use nginx_engine.Base.{
  ℕ, if◌then◌else◌, ◌+◌, ℤ, Bool, true, false, Option, some, List, [], ◌∷◌, if_rule, ◌≡◌,
}
use mathlib.Core.Path.{subst}
use nginx_engine.State.{
  World, Env, Pointer, connection, dummy_handler, Buffer, string, undef, scalar_ref, array_ref,
  other_ref,
}
use nginx_engine.Connection.{reader_start}
use nginx_engine.Connection.Close.{IsCoherent, close-IsCoherent}
use nginx_engine.Connection.Coherence.{
  KeepCoherent, reader_start-IsCoherent, reader_stop-IsCoherent, writer_stop-IsCoherent,
}
use nginx_engine.Writer.{writer_start}
use nginx_engine.Writer.Coherence.{writer_start-IsCoherent}
use nginx_engine.Api.{
  Globals, Reply, undefined, answered, returned, state_of, Supply, has_start, returning,
  answering_one, optional, warn, warn_many,
}
use nginx_engine.Api.Creation.{reader_buffer_arg}
use nginx_engine.Api.Reader
use nginx_engine.Api.Writer
use nginx_engine.Api.Calls.{
  Call, sets_reader, reader_times, starts_reader, stops_reader, stops_reader_starts_writer,
  sets_writer, writer_times, puts, starts_writer, stops_writer, stops_writer_starts_reader, closes,
  perform,
}
use nginx_engine.Api.Rules.{
  Fine, returning_rule, answering_one_rule, warn_many-IsCoherent, if_initialized_rule,
  with_session_rule, with_callback_rule, with_args_rule, extra_args-IsCoherent,
  first_args-IsCoherent, FineAfter,
}

module _ {S : Type 0} where
  module _ (e : Env S) (k : KeepCoherent e) (g : Globals) where
    reader_buffer_arg-IsCoherent :
        (cb : ℕ) (s : Supply) (w : World S)
        → IsCoherent w
        → IsCoherent (reader_buffer_arg cb s e g w)
    unfolding reader_buffer_arg
    reader_buffer_arg-IsCoherent cb s w h =
        if_rule IsCoherent w.has_reader_buffer (record { pool = h.pool; once = h.once })
          (record { pool = h.pool; once = h.once })

    reader_args-IsCoherent :
        (cb : ℕ) (s : Supply) (n : ℕ) (w : World S)
        → IsCoherent w
        → IsCoherent (Reader.reader_args e g cb s n w)
    unfolding Reader.reader_args Reader.writer_buffer_arg
    reader_args-IsCoherent cb s n w h = extra_args-IsCoherent cb s n _ _ (
        let h' = buffers _ (reader_buffer_arg-IsCoherent cb s _ (first_args-IsCoherent cb s w h)) in
        record { pool = h'.pool; once = h'.once })
      where
        buffers : (v : World S) → IsCoherent v → IsCoherent (Reader.writer_buffer_arg e g cb s v)
        buffers v h =
            unfold Reader.writer_buffer_arg in
            if_rule IsCoherent v.has_writer_buffer (record { pool = h.pool; once = h.once })
              (record { pool = h.pool; once = h.once })

    reader_set-IsCoherent :
        (cb : ℕ) (start t : ℤ) (w : World S)
        → IsCoherent w
        → IsCoherent (state_of (Reader.reader_set e g cb start t w))
    unfolding Reader.reader_set
    reader_set-IsCoherent cb start t w h =
        if_rule IsCoherent (has_start start)
          (reader_start-IsCoherent e k connection
            (record w {
              reader_flags = start;
              reader_callback = some cb;
              reader_timeout = t;
              read = record w.read { handler = dummy_handler };
            })
            (record { pool = h.pool; once = h.once }))
          (record { pool = h.pool; once = h.once })

    writer_args-IsCoherent :
        (cb : ℕ) (s : Supply) (n : ℕ) (is_pv : Bool) (b : Buffer) (w : World S)
        → IsCoherent w
        → IsCoherent (Writer.writer_args e g cb s n is_pv b w)
    unfolding Writer.writer_args
    writer_args-IsCoherent cb s n is_pv b w h =
        extra_args-IsCoherent cb s n _ _
          (buffers _ (reader_buffer_arg-IsCoherent cb s _ (first_args-IsCoherent cb s w h)))
      where
        buffers :
            (v : World S) → IsCoherent v → IsCoherent (Writer.filled_buffer_arg e g cb s is_pv b v)
        buffers v h =
            unfold Writer.filled_buffer_arg in
            let h' =
              if_rule IsCoherent v.has_writer_buffer (record { pool = h.pool; once = h.once })
                (record { pool = h.pool; once = h.once }) in
            record { pool = h'.pool; once = h'.once }

    writer_set-IsCoherent :
        (fuel cb : ℕ) (start t : ℤ) (w : World S)
        → IsCoherent w
        → Fine (Writer.writer_set e g fuel cb start t w)
    unfolding Writer.writer_set
    writer_set-IsCoherent fuel cb start t w h =
        if_rule (λ (o : Option (World S)). Fine (answering_one o)) (has_start start)
          (answering_one_rule (writer_start e fuel connection ready) λ v.
            writer_start-IsCoherent e k fuel connection ready v
              (record { pool = h.pool; once = h.once }))
          (record { pool = h.pool; once = h.once })
      where
        ready : World S
        ready = record w {
          writer_callback = some cb;
          writer_timeout = t;
          write = record w.write { handler = dummy_handler };
        }

    starts :
        (fuel : ℕ) (p : Pointer) (w : World S)
        → IsCoherent w
        → Fine (returning (writer_start e fuel p w))
    starts fuel p w h =
        returning_rule (writer_start e fuel p w) λ v. writer_start-IsCoherent e k fuel p w v h

    puts_buffer :
        (fuel : ℕ) (b : Buffer) (offset index : ℕ) (w : World S)
        → IsCoherent w
        → Fine (
            returning (
              writer_start e fuel connection
                (record (Writer.fill e b w) { writer_offset = offset; writer_index = index })))
    puts_buffer fuel b offset index w h =
        starts fuel connection
          (record (Writer.fill e b w) { writer_offset = offset; writer_index = index })
          (record { pool = h.pool; once = h.once })

    puts_pv :
        (fuel : ℕ) (b : Buffer) (bytes : List ℕ) (w : World S)
        → IsCoherent w
        → Fine (elim bytes [
          | [] ↦ some (undefined w)
          | ◌∷◌ x xs ↦ returning (writer_start e fuel connection (Writer.fill e b w))
        ])
    puts_pv fuel b [] w h = h
    puts_pv fuel b (x ∷ xs) w h = puts_buffer fuel b w.writer_offset w.writer_index w h

    put_data-IsCoherent :
        (fuel : ℕ) (is_pv : Bool) (b : Buffer) (w : World S)
        → IsCoherent w
        → Fine (Writer.put_data e g fuel is_pv b w)
    unfolding Writer.put_data
    put_data-IsCoherent fuel is_pv (scalar_ref b) w h = puts_buffer fuel _ 0 w.writer_index w h
    put_data-IsCoherent fuel is_pv (array_ref l) w h = puts_buffer fuel _ 0 0 w h
    put_data-IsCoherent fuel false (string b) w h =
        puts_buffer fuel _ w.writer_offset w.writer_index w h
    put_data-IsCoherent fuel false undef w h = puts_buffer fuel _ w.writer_offset w.writer_index w h
    put_data-IsCoherent fuel false other_ref w h =
        puts_buffer fuel _ w.writer_offset w.writer_index w h
    put_data-IsCoherent fuel true (string b) w h = puts_pv fuel _ _ w h
    put_data-IsCoherent fuel true undef w h = puts_pv fuel _ _ w h
    put_data-IsCoherent fuel true other_ref w h = puts_pv fuel _ _ w h

    call-IsCoherent : (fuel : ℕ) (c : Call) (p : Pointer) → FineAfter {S = S} (perform e g fuel c p)
    unfolding perform
    call-IsCoherent fuel (sets_reader start t extra cb s) p = with_session_rule g p _ (
        with_callback_rule cb s _ (
          with_args_rule cb s (extra + 5)
            (λ w. some (Reader.reader_set e g cb start t (Reader.reader_args e g cb s extra w)))
            λ w h. reader_set-IsCoherent cb start t _ (reader_args-IsCoherent cb s extra w h)))
    call-IsCoherent fuel (reader_times args) p =
        with_session_rule g p
          (λ w. some (
            answered w.reader_timeout
              (record (warn_many "Too many arguments for ngxe_reader_timeout (ignored)" args w) {
                reader_timeout = optional args w.reader_timeout;
              })))
          λ w h.
            let h' = warn_many-IsCoherent _ args w h in record { pool = h'.pool; once = h'.once }
    call-IsCoherent fuel (starts_reader args) p =
        with_session_rule g p
          (λ w. some (
            returned (
              reader_start e p
                (record (warn_many "Too many arguments for ngxe_reader_start (ignored)" args w) {
                  reader_timeout = optional args w.reader_timeout;
                }))))
          λ w h.
            reader_start-IsCoherent e k p
              (record (warn_many "Too many arguments for ngxe_reader_start (ignored)" args w) {
                reader_timeout = optional args w.reader_timeout;
              })
              (let h' = warn_many-IsCoherent _ args w h in
                record { pool = h'.pool; once = h'.once })
    call-IsCoherent fuel stops_reader p =
        if_initialized_rule g _ λ w h. reader_stop-IsCoherent e k p w h
    call-IsCoherent fuel stops_reader_starts_writer p =
        if_initialized_rule g _ λ w h. starts fuel p _ (reader_stop-IsCoherent e k p w h)
    call-IsCoherent fuel (sets_writer start t is_pv b extra cb s) p = with_session_rule g p _ (
        with_callback_rule cb s _ (
          with_args_rule cb s _ _ λ w h.
            writer_set-IsCoherent fuel cb start t _
              (writer_args-IsCoherent cb s extra is_pv b w h)))
    call-IsCoherent fuel (writer_times args) p =
        with_session_rule g p
          (λ w. some (
            answered w.writer_timeout
              (record (warn_many "Too many arguments for ngxe_writer_timeout (ignored)" args w) {
                writer_timeout = optional args w.writer_timeout;
              })))
          λ w h.
            let h' = warn_many-IsCoherent _ args w h in record { pool = h'.pool; once = h'.once }
    call-IsCoherent fuel (puts is_pv b) p =
        with_session_rule g p
          (λ w.
            if w.has_writer_buffer
            then Writer.put_data e g fuel is_pv b w
            else some (undefined (warn "s->writer_buffer is not initialized, ignoring" w)))
          λ w h.
            if_rule Fine w.has_writer_buffer (put_data-IsCoherent fuel is_pv b w h)
              (record { pool = h.pool; once = h.once })
    call-IsCoherent fuel (starts_writer args) p = with_session_rule g p _ λ w h.
        starts fuel p
          (record (warn_many "Too many arguments for ngxe_writer_start (ignored)" args w) {
            writer_timeout = optional args w.writer_timeout;
          })
          (let h' = warn_many-IsCoherent _ args w h in record { pool = h'.pool; once = h'.once })
    call-IsCoherent fuel stops_writer p =
        if_initialized_rule g _ λ w h. writer_stop-IsCoherent e k p w h
    call-IsCoherent fuel stops_writer_starts_reader p =
        if_initialized_rule g _
          λ w h. reader_start-IsCoherent e k p _ (writer_stop-IsCoherent e k p w h)
    call-IsCoherent fuel closes p = if_initialized_rule g _ λ w h. close-IsCoherent e p w h

    -- If Perl subs and native handlers keep a connection coherent, so does every call of Engine.xs
    -- on a connection whose writer, if it starts one, has fuel enough; also one that is refused or
    -- runs out of memory.
    pub perform-IsCoherent :
        (fuel : ℕ) (c : Call) (p : Pointer) (w : World S) (r : Reply S)
        → IsCoherent w
        → perform e g fuel c p w ≡ some r
        → IsCoherent (state_of r)
    perform-IsCoherent fuel c p w r h same = subst Fine same (call-IsCoherent fuel c p w h)
