-- ===== src/Reader/Drive.antt =====
-- What holds along the jumps of ngxe_reader_handler.
use mathlib.Core.Path.{subst}
use mathlib.Core.Option.{some-injective}
use nginx_engine.Base.{
  ℕ, zero, suc, String, Option, none, some, ◌≡◌, refl, ◌⊎◌, inl, inr, if◌then◌else◌, if_rule,
}
use nginx_engine.State.{World, Env, connection}
use nginx_engine.Connection.{log}
use nginx_engine.Writer.{writer_start}
use nginx_engine.Reader.{
  Jump, return, recv_again, run_callback, start_writer, recv_block, callback_block, run, enter,
  reader_event,
}

-- the state that a jump carries
abbrev pub target : {S : Type 0} → Jump S → World S
target (return w) = w
target (recv_again w) = w
target (run_callback w) = w
target (start_writer w) = w

module _ {ℓ} {S : Type 0} (e : Env S) (P : Jump S → Type ℓ) where
  -- The code behind each label keeps `P`, for the callback `cb`.
  pub record KeepsBlocks (cb : ℕ) : Type ℓ where
    pub recv_at : (w : World S) → P (recv_again w) → P (recv_block e cb w)
    pub callback_at : (w : World S) → P (run_callback w) → P (callback_block e cb w)

  -- The handler ends by itself, in a state where `P` holds of the return, or in a call of
  -- ngxe_writer_start in a state where `P` holds of that call.
  abbrev pub Ends : ℕ → World S → Type ℓ
  Ends limit w' =
      P (return w')
      ⊎ ((w : World S) × P (start_writer w) × (writer_start e limit connection w ≡ some w'))

  pub run_inv :
      (limit cb : ℕ)
      → KeepsBlocks cb
      → (fuel : ℕ) (j : Jump S) {w' : World S} → P j
      → run e limit cb fuel j ≡ some w'
      → Ends limit w'
  unfolding run
  run_inv limit cb k fuel (return w) {w' = w'} p h =
      inl (subst (λ v. P (return v)) (some-injective w w' h) p)
  run_inv limit cb k fuel (start_writer w) p h = inr (w, p, h)
  run_inv limit cb k zero (recv_again w) p h = cc
  run_inv limit cb k zero (run_callback w) p h = cc
  run_inv limit cb k (suc fuel) (recv_again w) p h =
      run_inv limit cb k fuel (recv_block e cb w) (k.recv_at w p) h
  run_inv limit cb k (suc fuel) (run_callback w) p h =
      run_inv limit cb k fuel (callback_block e cb w) (k.callback_at w p) h

  -- The same for the whole handler, whose guards return with a line in the log.
  pub reader_event_inv :
      (limit fuel : ℕ) (w : World S)
      → ((cb : ℕ) → w.reader_callback ≡ some cb → KeepsBlocks cb)
      → ((cb : ℕ) → P (enter e cb w))
      → ((line : String) → P (return (log line w)))
      → (w' : World S) → reader_event e limit fuel connection w ≡ some w'
      → Ends limit w'
  unfolding reader_event
  reader_event_inv limit fuel w k p l =
      if_rule Holds w.has_session (with_callback w.reader_callback refl) (stops _)
    where
      Holds : Option (World S) → Type ℓ
      Holds o = (w' : World S) → o ≡ some w' → Ends limit w'

      stops : (line : String) → Holds (some (log line w))
      stops line w' h = inl (subst (λ v. P (return v)) (some-injective _ w' h) (l line))

      with_callback :
          (c : Option ℕ)
          → w.reader_callback ≡ c
          → Holds (elim c [
            | none ↦ some (log "ngxe_reader_handler(): cb == NULL" w)
            | some cb ↦
                if w.has_reader_buffer
                then run e limit cb fuel (enter e cb w)
                else some (log "ngxe_reader_handler(): svbuf == NULL" w)
          ])
      with_callback none h = stops _
      with_callback (some cb) own =
          if_rule Holds w.has_reader_buffer
            (λ w' h. run_inv limit cb (k cb own) fuel (enter e cb w) (p cb) h) (stops _)
