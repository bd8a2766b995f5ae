-- ===== src/Api/Refusal.antt =====
-- Calls of Engine.xs that are refused leave the connection alone.
use nginx_engine.Base.{ℕ, false, true, some, ◌≡◌, refl}
use nginx_engine.State.{World, Env, Pointer, null}
use nginx_engine.Api.{Globals, Reply, croaked, state_of, if_initialized, with_session}
use nginx_engine.Api.Calls.{
  Call, sets_reader, reader_times, starts_reader, stops_reader, stops_reader_starts_writer,
  sets_writer, writer_times, puts, starts_writer, stops_writer, stops_writer_starts_reader, closes,
  perform,
}

module _ {S : Type 0} (e : Env S) (g : Globals) (fuel : ℕ) where
  -- Before ngxe_init every call on a connection croaks, and changes nothing.
  pub perform_croaks :
      (c : Call) (p : Pointer) (w : World S)
      → g.initialized ≡ false
      → perform e g fuel c p w ≡ some (croaked "You need to call ngxe_init() first" w)
  unfolding perform with_session if_initialized
  perform_croaks (sets_reader start t extra cb s) p w h = rw h refl
  perform_croaks (reader_times args) p w h = rw h refl
  perform_croaks (starts_reader args) p w h = rw h refl
  perform_croaks stops_reader p w h = rw h refl
  perform_croaks stops_reader_starts_writer p w h = rw h refl
  perform_croaks (sets_writer start t is_pv b extra cb s) p w h = rw h refl
  perform_croaks (writer_times args) p w h = rw h refl
  perform_croaks (puts is_pv b) p w h = rw h refl
  perform_croaks (starts_writer args) p w h = rw h refl
  perform_croaks stops_writer p w h = rw h refl
  perform_croaks stops_writer_starts_reader p w h = rw h refl
  perform_croaks closes p w h = rw h refl

  -- A call with a NULL pointer leaves all but the lines that it prints.
  pub perform_null :
      (c : Call) (w : World S)
      → g.initialized ≡ true
      → (r : Reply S) × (perform e g fuel c null w ≡ some r)
        × (state_of r ≡ record w { trace = (state_of r).trace })
  unfolding perform with_session if_initialized
  perform_null (sets_reader start t extra cb s) w h = rw h (_, refl, refl)
  perform_null (reader_times args) w h = rw h (_, refl, refl)
  perform_null (starts_reader args) w h = rw h (_, refl, refl)
  perform_null stops_reader w h = rw h (_, refl, refl)
  perform_null stops_reader_starts_writer w h = rw h (_, refl, refl)
  perform_null (sets_writer start t is_pv b extra cb s) w h = rw h (_, refl, refl)
  perform_null (writer_times args) w h = rw h (_, refl, refl)
  perform_null (puts is_pv b) w h = rw h (_, refl, refl)
  perform_null (starts_writer args) w h = rw h (_, refl, refl)
  perform_null stops_writer w h = rw h (_, refl, refl)
  perform_null stops_writer_starts_reader w h = rw h (_, refl, refl)
  perform_null closes w h = rw h (_, refl, refl)
