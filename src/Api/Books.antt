-- ===== src/Api/Books.antt =====
-- The reference counts while ngxe_reader and the like make a callback: each count is what it was
-- before, with one more for each place that holds the scalar.
use nginx_engine.Base.{
  ℕ, ℤ, if◌then◌else◌, zero, suc, ◌+◌, ◌==◌, false, Option, none, some, List, [], ◌∷◌, ◌++◌, length,
  length-append, arith, ◌≡◌, refl, if_rule,
}
use mathlib.Core.Path.{subst}
use nginx_engine.State.{World, Env}
use nginx_engine.Callback.{update}
use nginx_engine.Callback.Counts.{count}
use nginx_engine.Api.{Supply, Globals, mint}
use nginx_engine.Api.Reader
use nginx_engine.Api.Creation.{
  blank, change, new_arg, shared_arg, extra_args, first_args, reader_buffer_arg,
}

-- one, if the scalar is the sub
abbrev pub count_sub : ℕ → Option ℕ → ℕ
count_sub a none = 0
count_sub a (some sub) = if sub == a then 1 else 0

pub count-append : (a x : ℕ) (l : List ℕ) → count a (l ++ x ∷ []) ≡ count a l + count a (x ∷ [])
count-append a x [] = omega arith
count-append a x (y ∷ l) = ground (arith, count-append a x l)

-- `w` is `w0` with a new callback `cb` of a sub, `n` arguments to be, `k` of them there; `cleanups` are
-- the callbacks that the pool of `w` cleans up.
pub record IsBooked {S : Type 0} (cb n : ℕ) (cleanups : List ℕ) (w0 : World S) (k : ℕ) (w : World S)
    : Type 0 where
  pub counts :
      (a : ℕ)
      → w.refs a
        ≡ w0.refs a
          + count a w.mortals
          + count a (w.callbacks cb).args
          + count_sub a (w.callbacks cb).handler
  pub has_sub : (sub : ℕ) × ((w.callbacks cb).handler ≡ some sub)
  pub filled : length (w.callbacks cb).args ≡ k
  pub number : (w.callbacks cb).args_n ≡ n
  pub kept : (w.callbacks cb).decremented ≡ false
  pub others : (q : ℕ) → (cb == q) ≡ false → w.callbacks q ≡ w0.callbacks q
  pub registered : w.cleanups ≡ cleanups
  pub alive : w.destroyed ≡ w0.destroyed

module _ {S : Type 0} (cb n : ℕ) (cbs : List ℕ) (w0 : World S) where
  abbrev pub B : ℕ → World S → Type 0
  B k w = IsBooked cb n cbs w0 k w

  pub new_arg-IsBooked : (a k : ℕ) (w : World S) → B k w → B (k + 1) (new_arg cb a w)
  unfolding new_arg mint
  new_arg-IsBooked a k w h = record {
    counts = λ b. ground (arith, h.counts b, count-append b a (w.callbacks cb).args);
    has_sub = (h.has_sub.0, ground (arith, h.has_sub.1));
    filled = ground (arith, h.filled, length-append (w.callbacks cb).args (a ∷ []));
    number = ground (arith, h.number);
    kept = ground (arith, h.kept);
    others = λ q d. ground (arith, h.others q d);
    registered = h.registered;
    alive = h.alive;
  }

  pub shared_arg-IsBooked : (a k : ℕ) (w : World S) → B k w → B (k + 1) (shared_arg cb a w)
  unfolding shared_arg
  shared_arg-IsBooked a k w h = record {
    counts = λ b. ground (arith, h.counts b, count-append b a (w.callbacks cb).args);
    has_sub = (h.has_sub.0, ground (arith, h.has_sub.1));
    filled = ground (arith, h.filled, length-append (w.callbacks cb).args (a ∷ []));
    number = ground (arith, h.number);
    kept = ground (arith, h.kept);
    others = λ q d. ground (arith, h.others q d);
    registered = h.registered;
    alive = h.alive;
  }

  pub min_len-IsBooked :
      (m : ℤ) (k : ℕ) (w : World S) → B k w → B k (change cb (λ c. record c { min_len = m }) w)
  min_len-IsBooked m k w h = record {
    counts = λ b. ground (arith, h.counts b);
    has_sub = (h.has_sub.0, ground (arith, h.has_sub.1));
    filled = ground (arith, h.filled);
    number = ground (arith, h.number);
    kept = ground (arith, h.kept);
    others = λ q d. ground (arith, h.others q d);
    registered = h.registered;
    alive = h.alive;
  }

  pub extra_args-IsBooked :
      (extra : ℕ) (fresh : ℕ → ℕ) (k : ℕ) (w : World S)
      → B k w
      → B (k + extra) (extra_args cb fresh extra w)
  unfolding extra_args
  extra_args-IsBooked zero fresh k w h = subst (λ i. B i w) (omega arith) h
  extra_args-IsBooked (suc extra) fresh k w h =
      subst (λ i. B i (extra_args cb (λ i. fresh (i + 1)) extra (new_arg cb (fresh 0) w)))
        (omega arith)
        (extra_args-IsBooked extra (λ i. fresh (i + 1)) (k + 1) _
          (new_arg-IsBooked (fresh 0) k w h))

  -- What the steps change besides the books.
  pub unbooked :
      (k : ℕ) (v w : World S)
      → B k v
      → w.refs ≡ v.refs
      → w.mortals ≡ v.mortals
      → w.callbacks ≡ v.callbacks
      → w.cleanups ≡ v.cleanups
      → w.destroyed ≡ v.destroyed
      → B k w
  unbooked k v w h r m c l d = record {
    counts = λ a. rw (r, m, c) (h.counts a);
    has_sub = rw c h.has_sub;
    filled = rw c h.filled;
    number = rw c h.number;
    kept = rw c h.kept;
    others = λ q o. rw c (h.others q o);
    registered = rw l h.registered;
    alive = rw d h.alive;
  }

  pub first_args-IsBooked :
      (s : Supply) (k : ℕ) (w : World S) → B k w → B (k + 1 + 1) (first_args cb s w)
  unfolding first_args
  first_args-IsBooked s k w h = new_arg-IsBooked _ _ _ (new_arg-IsBooked _ _ _ h)

  pub reader_buffer_arg-IsBooked :
      (s : Supply) (e : Env S) (g : Globals) (k : ℕ) (w : World S)
      → B k w
      → B (k + 1) (reader_buffer_arg cb s e g w)
  unfolding reader_buffer_arg
  reader_buffer_arg-IsBooked s e g k w h =
      if_rule (B (k + 1)) w.has_reader_buffer (shared_arg-IsBooked _ k w h) (
        unbooked (k + 1) (new_arg cb (s.fresh 3) w) _ (new_arg-IsBooked (s.fresh 3) k w h) refl refl
          refl refl refl)

  pub writer_buffer_arg-IsBooked :
      (s : Supply) (e : Env S) (g : Globals) (k : ℕ) (w : World S)
      → B k w
      → B (k + 1) (Reader.writer_buffer_arg e g cb s w)
  unfolding Reader.writer_buffer_arg
  writer_buffer_arg-IsBooked s e g k w h =
      if_rule (B (k + 1)) w.has_writer_buffer (shared_arg-IsBooked _ k w h) (
        unbooked (k + 1) (new_arg cb (s.fresh 4) w) _ (new_arg-IsBooked (s.fresh 4) k w h) refl refl
          refl refl refl)

-- A new callback for `n` arguments, with a copy of the sub.
abbrev pub blank_callback : {S : Type 0} → ℕ → ℕ → Supply → World S → World S
blank_callback cb n s w =
    change cb (λ c. record c { handler = some (s.fresh 0); args_n = n })
      (mint (s.fresh 0)
        (record w { callbacks = update w.callbacks cb blank; cleanups = cb ∷ w.cleanups }))

module _ {S : Type 0} (cb n : ℕ) (s : Supply) where
  pub blank_callback-IsBooked :
      (w : World S) → w.mortals ≡ [] → IsBooked cb n (cb ∷ w.cleanups) w 0 (blank_callback cb n s w)
  unfolding mint
  blank_callback-IsBooked w none_mortal = record {
    counts = λ b. rw none_mortal (ground arith);
    has_sub = (s.fresh 0, ground arith);
    filled = ground arith;
    number = ground arith;
    kept = ground arith;
    others = λ q d. ground arith;
    registered = refl;
    alive = refl;
  }
