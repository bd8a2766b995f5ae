-- ===== src/Api/Putting.antt =====
-- ngxe_writer_buffer_set of a string: from the call to the bytes that are sent.
pub mod References
use nginx_engine.Base.{
  ℕ, ◌+◌, ◌*◌, ◌≤◌, Bool, true, Option, none, some, List, ◌∷◌, ◌++◌, ◌≡◌, refl, sym, ap, ◌∙◌, inl,
  inr, arith, if_rule, if_true, if◌then◌else◌,
}
use mathlib.Core.Path.{subst}
use nginx_engine.State.{World, Env, Buffer, string, connection, writer_handler}
use nginx_engine.Connection.{
  event_error, log, start_error, handle_write, del_timer, add_write_timer,
}
use nginx_engine.Connection.Close.{fail-destroyed}
use nginx_engine.Writer.{dispatch, handle_writer, writer_start}
use nginx_engine.Writer.Plain
use nginx_engine.Writer.Delivery.{plain_delivers}
use nginx_engine.Writer.Returns.Rules.{Fills}
use nginx_engine.Writer.Stream.Rules.{View, view, Fresh, Refills}
use nginx_engine.Writer.Stream.Plain.{IsPlain, Sound}
use nginx_engine.Api.{Globals, returned, returning, touch, if_initialized, with_session}
use nginx_engine.Api.Writer.{fill, put_data, writer_buffer_set}

-- A session that can write.
pub record IsWritable {S : Type 0} (cb : ℕ) (w : World S) : Type 0 where
  pub session : w.has_session ≡ true
  pub callback : w.writer_callback ≡ some cb
  pub output : w.has_writer_buffer ≡ true

module _ {S : Type 0} (e : Env S) (cb : ℕ) where
  handle_writer-dispatch :
      (fuel : ℕ) (b : Buffer) (w : World S)
      → IsWritable cb w
      → w.writer_buffer ≡ b
      → handle_writer e fuel w ≡ dispatch e fuel cb b w
  unfolding handle_writer
  handle_writer-dispatch fuel b w h same =
      if_true w.has_session _ _ h.session
      ∙ ap
          (λ c. elim c [
            | none ↦ some (log "ngxe_writer_handler(): cb == NULL" w)
            | some cb ↦
                if w.has_writer_buffer
                then dispatch e fuel cb w.writer_buffer w
                else some (log "ngxe_writer_handler(): svbuf == NULL" w)
          ])
          h.callback
      ∙ if_true w.has_writer_buffer _ _ h.output
      ∙ ap (λ b. dispatch e fuel cb b w) same

  -- The guards of ngxe_writer_buffer_set.
  pub writer_buffer_set-put_data :
      (g : Globals) (fuel : ℕ) (is_pv : Bool) (b : Buffer) (w : World S)
      → g.initialized ≡ true
      → w.has_pool ≡ true
      → IsWritable cb w
      → writer_buffer_set e g fuel connection is_pv b w ≡ put_data e g fuel is_pv b (touch w)
  unfolding writer_buffer_set with_session if_initialized
  writer_buffer_set-put_data g fuel is_pv b w i p h =
      if_true g.initialized _ _ i
      ∙ if_true w.has_pool _ _ p
      ∙ if_true w.has_session _ _ h.session
      ∙ if_true w.has_writer_buffer _ _ h.output

  module _ (R : View → Type 0) (dead : (v : View) → v.destroyed ≡ true → R v) where
    -- A run that returns, with the stream as it should be.
    abbrev pub Delivers : Option (World S) → Type 0
    Delivers o = (w' : World S) × (o ≡ some w') × R (view w')

    -- ngxe_writer_start, from what the handler does with a buffer of this kind.
    pub writer_start-Delivers :
        (fuel : ℕ) (b : Buffer) (w : World S)
        → IsWritable cb w
        → w.writer_buffer ≡ b
        → R (view w)
        → ((v : World S)
            → view v ≡ view w
            → v.outside ≡ (e.handle_write_event w.outside).1
            → Delivers (dispatch e fuel cb b v))
        → Delivers (writer_start e fuel connection w)
    unfolding writer_start handle_write
    writer_start-Delivers fuel b w h same r runs =
        if_rule Delivers (e.handle_write_event w.outside).0
          (if_rule Delivers w.write.ready
            (subst Delivers
              (sym (
                handle_writer-dispatch fuel b (add_write_timer e started)
                  (record { session = h.session; callback = h.callback; output = h.output }) same))
              (runs (add_write_timer e started) refl refl))
            (add_write_timer e started, refl, r))
          (start_error e started.writer_callback started, refl, dead _ failed)
      where
        started : World S
        started =
            (handle_write e
              (record w { write = record (del_timer w.write) { handler = writer_handler } })).1

        failed : (start_error e started.writer_callback started).destroyed ≡ true
        failed =
            unfold start_error in
            subst (λ c. (start_error e c started).destroyed ≡ true) (sym h.callback)
              (fail-destroyed e cb event_error started)

module _ {S : Type 0} (e : Env S) (left : S → ℕ) (f : Fills e left) (cb : ℕ)
    (refills : Refills (IsPlain e) e) where
  -- A call of ngxe_writer_buffer_set (or ngxe_writer_put) with a string that is not empty, with the
  -- library initialised, on a session that can write and where all that was queued was sent,
  -- returns, on any fuel of at least two rounds for each time that the socket still takes bytes,
  -- and two more. Then the bytes sent followed by the write buffer are exactly the bytes that were
  -- queued, or the connection is destroyed. This asks that the event system makes no room in the
  -- socket, that it is full at some time, and that the subs keep to the string when all is sent.
  pub put_delivers :
      ((s : S) → left (e.handle_write_event s).1 ≤ left s)
      → (g : Globals) (fuel x : ℕ) (xs : List ℕ) (w : World S) → g.initialized ≡ true
      → w.has_pool ≡ true
      → IsWritable cb w
      → w.sent ≡ w.queued
      → 2 * left w.outside + 2 ≤ fuel
      → (w' : World S) × (writer_buffer_set e g fuel connection true (string (x ∷ xs)) w
          ≡ some (returned w'))
        × Sound e (view w')
  unfolding put_data dispatch
  put_delivers room g fuel x xs w i p h drained enough =
      let (w', same, sound) =
        writer_start-Delivers e cb (Sound e) (λ v d. inl d) fuel (string (x ∷ xs))
          (fill e (string (x ∷ xs)) (touch w))
          (record { session = h.session; callback = h.callback; output = h.output }) refl
          (inr (ap (λ l. l ++ (x ∷ xs)) drained))
          (λ v q o.
            plain_delivers e left f cb refills fuel v
              (omega (arith, enough, room w.outside, ap left o))
              (subst Fresh (sym q) (ap (λ l. l ++ (x ∷ xs)) drained))
              (subst (λ u. IsPlain e u.buffer u.offset) (sym q) refl)) in
      (
        w',
        writer_buffer_set-put_data e cb g fuel true (string (x ∷ xs)) w i p h ∙ ap returning same,
        sound,
      )
