-- ===== src/Callback.antt =====
-- ngxe_xs.c: calling a Perl sub, and giving its references back.
pub mod Counts
pub mod Rule
pub mod Balance
use nginx_engine.Base.{
  ℕ, ◌+◌, ◌-◌, Bool, true, Option, none, some, List, [], ◌∷◌, ◌==◌, if◌then◌else◌, take,
}
use nginx_engine.State.{World, Env, called}

-- SvREFCNT_inc and SvREFCNT_dec
abbrev pub inc : ℕ → (ℕ → ℕ) → ℕ → ℕ
inc a refs b = if a == b then refs b + 1 else refs b

abbrev pub dec : ℕ → (ℕ → ℕ) → ℕ → ℕ
dec a refs b = if a == b then refs b - 1 else refs b

unfoldable pub inc_all : List ℕ → (ℕ → ℕ) → ℕ → ℕ
inc_all [] refs = refs
inc_all (a ∷ args) refs = inc_all args (inc a refs)

unfoldable pub dec_all : List ℕ → (ℕ → ℕ) → ℕ → ℕ
dec_all [] refs = refs
dec_all (a ∷ args) refs = dec_all args (dec a refs)

-- SvREFCNT_dec of a pointer, which may be NULL
abbrev pub dec_handler : Option ℕ → (ℕ → ℕ) → ℕ → ℕ
dec_handler none refs = refs
dec_handler (some sub) refs = dec sub refs

abbrev pub update {ℓ} : {A : Type ℓ} → (ℕ → A) → ℕ → A → ℕ → A
update f p v q = if p == q then v else f q

module _ {S : Type 0} where
  -- The references that the callback holds are given back, if that was not done before.
  unfoldable pub callback_dec : ℕ → World S → World S
  callback_dec cb w =
      let c = w.callbacks cb in
      if c.decremented then w else record w {
        refs = dec_all (take c.args_n c.args) (dec_handler c.handler w.refs);
        callbacks = update w.callbacks cb (record c { args_n = 0; decremented = true });
      }

  unfoldable pub callback_cleanup : ℕ → World S → World S
  unfolding callback_dec
  callback_cleanup cb w = if (w.callbacks cb).decremented then w else callback_dec cb w

  -- The arguments go on Perl's stack, each with one more reference.
  unfoldable pub push_args : ℕ → ℕ → World S → World S
  push_args cb sub w =
      let c = w.callbacks cb in
      record w {
        refs = inc_all (take c.args_n c.args) (inc sub w.refs);
        trace = called cb c.error ∷ w.trace;
      }

  -- The references taken for the call are given back. `n` is the number of arguments before it.
  -- The callback lives in the connection's pool: it is read here whether or not the sub has
  -- destroyed that pool.
  unfoldable pub pop_args : ℕ → ℕ → World S → World S
  pop_args cb n w =
      let c = w.callbacks cb in
      record w {
        refs = dec_handler c.handler (dec_all (take n c.args) w.refs);
        stale_reads = if w.pool_alive then w.stale_reads else w.stale_reads + 1;
      }

  module _ (e : Env S) where
    unfoldable pub call_perl : ℕ → ℕ → Bool → World S → World S
    unfolding push_args pop_args callback_dec
    call_perl cb sub decrefcnts w =
        let after = pop_args cb (w.callbacks cb).args_n (e.call_sv cb (push_args cb sub w)) in
        if decrefcnts then callback_dec cb after else after

    -- ngxe_callback
    unfoldable pub callback : ℕ → Bool → World S → World S
    unfolding call_perl
    callback cb decrefcnts w = elim (w.callbacks cb).handler [
      | none ↦ elim (w.callbacks cb).native_handler [ none ↦ w | some f ↦ e.call_native f w ]
      | some sub ↦ call_perl cb sub decrefcnts w
    ]
