-- ===== src/Life/Echo/Writing.antt =====
-- ngxe_writer_handler and ngxe_writer_start of such a connection.
use nginx_engine.Base.{
  ℕ, true, Bool, Option, none, some, if◌then◌else◌, if_rule, ◌≡◌, refl, inr, String,
}
use mathlib.Core.Path.{subst}
use mathlib.Core.Option.{some-injective}
use nginx_engine.State.{
  Event, Buffer, string, undef, scalar_ref, array_ref, other_ref, World, Env, connection,
  dummy_handler, writer_handler,
}
use nginx_engine.Connection.{add_timer, del_timer, log, start_error, handle_write}
use nginx_engine.Reader.Frame.{handler-add_timer}
use nginx_engine.Writer.{dispatch, handle_writer, writer_event, writer_start}
use nginx_engine.Writer.Drive.{drive_inv}
use nginx_engine.Writer.Plain.{enter, labels}
use nginx_engine.Life.Echo.{IsText, IsEchoing, IsWriting, Works, KeepEcho}
use nginx_engine.Life.Echo.Sending.{P, keeps, enters, start_failed}

module _ {S : Type 0} (e : Env S) (mine : ℕ → Bool) (k : KeepEcho e mine) where
  module _ (cb : ℕ) (own : mine cb ≡ true) where
    dispatched :
        (fuel : ℕ) (b : Buffer) (w : World S)
        → w.writer_buffer ≡ b
        → IsWriting e mine w
        → (w' : World S) → dispatch e fuel cb b w ≡ some w'
        → Works e mine w'
    unfolding dispatch
    dispatched fuel (string b) w h i w' q =
        drive_inv (P e mine k) (labels e cb) (keeps e mine k cb own) fuel (enter e cb w)
          (enters e mine k cb own w (inr i)) q
    dispatched fuel undef w h i w' q =
        drive_inv (P e mine k) (labels e cb) (keeps e mine k cb own) fuel (enter e cb w)
          (enters e mine k cb own w (inr i)) q
    dispatched fuel (scalar_ref b) w h i w' q = absurd (subst (IsText e) h i.echoing.text)
    dispatched fuel (array_ref l) w h i w' q = absurd (subst (IsText e) h i.echoing.text)
    dispatched fuel other_ref w h i w' q = absurd (subst (IsText e) h i.echoing.text)

  -- A run that returns.
  abbrev Ends : Option (World S) → Type 0
  Ends o = (w' : World S) → o ≡ some w' → Works e mine w'

  ends : (w : World S) → Works e mine w → Ends (some w)
  ends w p w' h = subst (Works e mine) (some-injective w w' h) p

  handle_writer-Works :
      (fuel : ℕ) (w : World S) → IsWriting e mine w → Ends (handle_writer e fuel w)
  unfolding handle_writer
  handle_writer-Works fuel w i =
      if_rule Ends w.has_session (with_callback w.writer_callback refl) (logged _)
    where
      logged : (line : String) → Ends (some (log line w))
      logged line =
          ends _ (inr (inr (record { echoing = i.echoing; writes = i.writes; rests = i.rests })))

      with_callback :
          (c : Option ℕ)
          → w.writer_callback ≡ c
          → Ends (elim c [
            | none ↦ some (log "ngxe_writer_handler(): cb == NULL" w)
            | some cb ↦
                if w.has_writer_buffer
                then dispatch e fuel cb w.writer_buffer w
                else some (log "ngxe_writer_handler(): svbuf == NULL" w)
          ])
      with_callback none h = logged _
      with_callback (some cb) h =
          if_rule Ends w.has_writer_buffer
            (dispatched cb (i.echoing.writer_mine cb h) fuel w.writer_buffer w refl i) (logged _)

  pub writer_event-Works :
      (fuel : ℕ) (w : World S) → IsWriting e mine w → Ends (writer_event e fuel connection w)
  unfolding writer_event
  writer_event-Works fuel w i = handle_writer-Works fuel w i

  -- ngxe_writer_start, of a connection whose reader is stopped.
  pub writer_start-Works :
      (fuel : ℕ) (w : World S)
      → IsEchoing e mine w
      → w.read.handler ≡ dummy_handler
      → Ends (writer_start e fuel connection w)
  unfolding writer_start handle_write
  writer_start-Works fuel w i h =
      let v : Event = record (del_timer w.write) { handler = writer_handler } in
      let s : S = (e.handle_write_event w.outside).1 in
      if_rule Ends (e.handle_write_event w.outside).0
        (if_rule Ends w.write.ready
          (handle_writer-Works fuel (record w { write = add_timer w.writer_timeout v; outside = s })
            (at _ s (handler-add_timer w.writer_timeout v)))
          (ends (record w { write = add_timer w.writer_timeout v; outside = s })
            (inr (inr (at _ s (handler-add_timer w.writer_timeout v))))))
        (ends (start_error e w.writer_callback (record w { write = v; outside = s })) (
          start_failed e mine k w.writer_callback (record w { write = v; outside = s })
            (inr (inr (at v s refl)))))
    where
      at :
          (v : Event) (s : S)
          → v.handler ≡ writer_handler
          → IsWriting e mine (record w { write = v; outside = s })
      at v s q = record { echoing = i; writes = q; rests = h }
