-- ===== src/Writer/Frame.antt =====
-- A property of the connection that the writer's own steps do not touch holds after ngxe_writer_start
-- and ngxe_writer_handler, if calls of Perl subs and the error path keep it.
pub mod Rules
pub mod Handlers
use nginx_engine.Base.{ℕ, Option, none, some, if◌then◌else◌, ◌≡◌, if_rule}
use mathlib.Core.Path.{subst}
use mathlib.Core.Option.{some-injective}
use nginx_engine.State.{
  Buffer, string, undef, scalar_ref, array_ref, other_ref, World, Env, Pointer, null, connection,
}
use nginx_engine.Connection.{log}
use nginx_engine.Writer.{dispatch, handle_writer, writer_event, writer_start}
use nginx_engine.Writer.Blocks.{Jump}
use nginx_engine.Writer.Drive.{target, drive_inv}
use nginx_engine.Writer.Plain
use nginx_engine.Writer.Scalar
use nginx_engine.Writer.Array
use Rules.{IsFrame, wrote}
use Handlers.{plain_labels, plain_enter, scalar_labels, scalar_enter, array_labels, array_enter}

module _ {ℓ} {S : Type 0} (e : Env S) (P : World S → Type ℓ) (f : IsFrame e P) where
  abbrev Q : Jump S → Type ℓ
  Q j = P (target j)

  module _ (cb : ℕ) where
    dispatch_frame :
        (fuel : ℕ) (b : Buffer) (w : World S) {w' : World S}
        → P w
        → dispatch e fuel cb b w ≡ some w'
        → P w'
    unfolding dispatch
    dispatch_frame fuel (string b) w p h =
        drive_inv Q (Plain.labels e cb) (plain_labels e P f cb) fuel _ (plain_enter e P f cb w p) h
    dispatch_frame fuel undef w p h =
        drive_inv Q (Plain.labels e cb) (plain_labels e P f cb) fuel _ (plain_enter e P f cb w p) h
    dispatch_frame fuel (scalar_ref b) w p h =
        drive_inv Q (Scalar.labels e cb) (scalar_labels e P f cb) fuel _ (scalar_enter e P f cb w p)
          h
    dispatch_frame fuel (array_ref l) w p h =
        drive_inv Q (Array.labels e cb) (array_labels e P f cb) fuel _ (array_enter e P f cb w p) h
    dispatch_frame fuel other_ref w {w' = w'} p h =
        subst P (some-injective _ w' h) (f.fails cb _ w p)

  -- A result that is there satisfies `P`.
  abbrev pub Holds : Option (World S) → Type ℓ
  Holds o = (w' : World S) → o ≡ some w' → P w'

  some-Holds : (w : World S) → P w → Holds (some w)
  some-Holds w p w' h = subst P (some-injective w w' h) p

  handle_writer_frame : (fuel : ℕ) (w : World S) → P w → Holds (handle_writer e fuel w)
  unfolding handle_writer
  handle_writer_frame fuel w p =
      if_rule Holds w.has_session (with_callback w.writer_callback) (some-Holds _ (f.lines w _ p))
    where
      with_callback :
          (c : Option ℕ)
          → Holds (elim c [
            | none ↦ some (log "ngxe_writer_handler(): cb == NULL" w)
            | some cb ↦
                if w.has_writer_buffer
                then dispatch e fuel cb w.writer_buffer w
                else some (log "ngxe_writer_handler(): svbuf == NULL" w)
          ])
      with_callback none = some-Holds _ (f.lines w _ p)
      with_callback (some cb) =
          if_rule Holds w.has_writer_buffer (λ w' h. dispatch_frame cb fuel w.writer_buffer w p h)
            (some-Holds _ (f.lines w _ p))

  pub writer_event_frame :
      (fuel : ℕ) (p : Pointer) (w : World S) → P w → Holds (writer_event e fuel p w)
  unfolding writer_event
  writer_event_frame fuel null w p = some-Holds _ (f.lines w _ p)
  writer_event_frame fuel connection w p = handle_writer_frame fuel w p

  pub writer_start_frame :
      (fuel : ℕ) (p : Pointer) (w : World S) → P w → Holds (writer_start e fuel p w)
  unfolding writer_start
  writer_start_frame fuel null w p = some-Holds _ (f.lines w _ p)
  writer_start_frame fuel connection w p =
      if_rule Holds (e.handle_write_event w.outside).0
        (if_rule Holds w.write.ready (handle_writer_frame fuel _ (wrote e P f w _ _ p))
          (some-Holds _ (wrote e P f w _ _ p)))
        (some-Holds _ (f.starts _ _ (wrote e P f w _ _ p)))
