-- ===== src/Writer/Drive.antt =====
-- What holds along the jumps of a writer handler.
use nginx_engine.Base.{ℕ, zero, suc, some, ◌≡◌}
use mathlib.Core.Path.{subst}
use mathlib.Core.Option.{some-injective}
use nginx_engine.State.{World}
use nginx_engine.Writer.Blocks.{
  Jump, return, next_buf, send_again, done, after_callback, Labels, drive,
}

-- the state that a jump carries
abbrev pub target : {S : Type 0} → Jump S → World S
target (return w) = w
target (next_buf w) = w
target (send_again w) = w
target (done w) = w
target (after_callback w) = w

module _ {ℓ} {S : Type 0} (P : Jump S → Type ℓ) (l : Labels S) where
  -- The code behind each label keeps `P`.
  pub record KeepsLabels : Type ℓ where
    pub next_buf_at : (w : World S) → P (next_buf w) → P (l.next_buf_at w)
    pub send_again_at : (w : World S) → P (send_again w) → P (l.send_again_at w)
    pub done_at : (w : World S) → P (done w) → P (l.done_at w)
    pub after_callback_at : (w : World S) → P (after_callback w) → P (l.after_callback_at w)

  pub drive_inv :
      KeepsLabels
      → (fuel : ℕ) (j : Jump S) {w' : World S} → P j
      → drive fuel l j ≡ some w'
      → P (return w')
  unfolding drive
  drive_inv k fuel (return w) {w' = w'} p h = subst (λ v. P (return v)) (some-injective w w' h) p
  drive_inv k zero (next_buf w) p h = cc
  drive_inv k zero (send_again w) p h = cc
  drive_inv k zero (done w) p h = cc
  drive_inv k zero (after_callback w) p h = cc
  drive_inv k (suc fuel) (next_buf w) p h = drive_inv k fuel (l.next_buf_at w) (k.next_buf_at w p) h
  drive_inv k (suc fuel) (send_again w) p h =
      drive_inv k fuel (l.send_again_at w) (k.send_again_at w p) h
  drive_inv k (suc fuel) (done w) p h = drive_inv k fuel (l.done_at w) (k.done_at w p) h
  drive_inv k (suc fuel) (after_callback w) p h =
      drive_inv k fuel (l.after_callback_at w) (k.after_callback_at w p) h
