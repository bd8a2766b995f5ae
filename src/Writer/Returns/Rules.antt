-- ===== src/Writer/Returns/Rules.antt =====
-- How many rounds a writer handler makes at most.
use nginx_engine.Base.{ℕ, zero, suc, ◌≤◌, ◌<◌, true, false, is_some, List, ◌≡◌, refl, arith}
use nginx_engine.State.{World, Env, accepted, write_again}
use nginx_engine.Callback.{callback, call_perl, push_args}
use nginx_engine.Callback.Rule.{callback_rule}
use nginx_engine.Writer.Blocks.{
  Jump, return, next_buf, send_again, done, after_callback, Labels, drive,
}

-- A socket that is full at some time: `left` bounds how often it still takes bytes during the run
-- of a handler. When it takes none, nginx clears the event's `ready` flag. Subs do not empty it.
pub record Fills {S : Type 0} (e : Env S) (left : S → ℕ) : Type 0 where
  pub less :
      (s : S) (b : List ℕ) (n : ℕ)
      → (e.send s b).0 ≡ accepted (suc n)
      → left (e.send s b).2 < left s
  pub waits : (s : S) (b : List ℕ) → (e.send s b).0 ≡ write_again → (e.send s b).1 ≡ false
  pub sub : (k : ℕ) (w : World S) → left (e.call_sv k w).outside ≤ left w.outside
  pub native : (f : ℕ) (w : World S) → left (e.call_native f w).outside ≤ left w.outside

-- The code behind each label goes to a jump of a smaller rank.
module _ {ℓ} {S : Type 0} (P : Jump S → Type ℓ) (rank : Jump S → ℕ) where
  abbrev pub Below : ℕ → Jump S → Type ℓ
  Below n j = P j × (rank j < n)

  pub record IsBounded (l : Labels S) : Type ℓ where
    pub next_buf_at : (w : World S) → P (next_buf w) → Below (rank (next_buf w)) (l.next_buf_at w)
    pub send_again_at :
        (w : World S) → P (send_again w) → Below (rank (send_again w)) (l.send_again_at w)
    pub done_at : (w : World S) → P (done w) → Below (rank (done w)) (l.done_at w)
    pub after_callback_at :
        (w : World S)
        → P (after_callback w)
        → Below (rank (after_callback w)) (l.after_callback_at w)

  pub drive_returns :
      (l : Labels S)
      → IsBounded l
      → (fuel : ℕ) (j : Jump S) → Below (suc fuel) j
      → is_some (drive fuel l j) ≡ true
  unfolding drive
  drive_returns l i fuel (return w) p = refl
  drive_returns l i zero (next_buf w) p = absurd (omega (arith, p.1, (i.next_buf_at w p.0).1))
  drive_returns l i zero (send_again w) p = absurd (omega (arith, p.1, (i.send_again_at w p.0).1))
  drive_returns l i zero (done w) p = absurd (omega (arith, p.1, (i.done_at w p.0).1))
  drive_returns l i zero (after_callback w) p =
      absurd (omega (arith, p.1, (i.after_callback_at w p.0).1))
  drive_returns l i (suc fuel) (next_buf w) p =
      let q = i.next_buf_at w p.0 in
      drive_returns l i fuel (l.next_buf_at w) (q.0, omega (arith, p.1, q.1))
  drive_returns l i (suc fuel) (send_again w) p =
      let q = i.send_again_at w p.0 in
      drive_returns l i fuel (l.send_again_at w) (q.0, omega (arith, p.1, q.1))
  drive_returns l i (suc fuel) (done w) p =
      let q = i.done_at w p.0 in drive_returns l i fuel (l.done_at w) (q.0, omega (arith, p.1, q.1))
  drive_returns l i (suc fuel) (after_callback w) p =
      let q = i.after_callback_at w p.0 in
      drive_returns l i fuel (l.after_callback_at w) (q.0, omega (arith, p.1, q.1))

module _ {S : Type 0} (e : Env S) (left : S → ℕ) (f : Fills e left) where
  pub left-callback : (cb : ℕ) (w : World S) → left (callback e cb false w).outside ≤ left w.outside
  unfolding call_perl
  left-callback cb w =
      callback_rule e (λ v. left v.outside ≤ left w.outside) cb false w
        (λ sub. f.sub cb (push_args cb sub w)) (λ k. f.native k w) (omega arith)
