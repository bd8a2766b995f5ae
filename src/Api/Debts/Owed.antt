-- ===== src/Api/Debts/Owed.antt =====
-- The references that the cleanup handlers give back, as a sum over the callbacks.
use nginx_engine.Base.{
  ℕ, ◌+◌, ◌-◌, ◌==◌, true, false, if◌then◌else◌, List, [], ◌∷◌, take, arith, ◌≡◌, refl, ap, ◌∙◌,
  fun_ext, inl, inr, Bool-cases,
}
use mathlib.Core.Path.{subst}
use nginx_engine.State.{World, Callback, ErrorValue}
use nginx_engine.Callback.{update, callback_dec, callback_cleanup, dec_handler}
use nginx_engine.Callback.Counts.{count, dec_all-count}
use nginx_engine.Connection.{run_cleanups}
use nginx_engine.Connection.Close.{◌∈◌}
use nginx_engine.Api.Books.{count_sub}
use nginx_engine.Api.Refs.{dec_handler-count}

-- the references to `a` that a callback holds
abbrev pub held : Callback → ℕ → ℕ
held c a = if c.decremented then 0 else count a (take c.args_n c.args) + count_sub a c.handler

-- a callback that has given its references back
abbrev pub spent : Callback → Callback
spent c = if c.decremented then c else record c { args_n = 0; decremented = true }

-- the callbacks when one of them has given its references back
abbrev pub after : ℕ → (ℕ → Callback) → ℕ → Callback
after q c = update c q (spent (c q))

unfoldable pub owed : List ℕ → (ℕ → Callback) → ℕ → ℕ
owed [] c a = 0
owed (q ∷ l) c a = held (c q) a + owed l (after q c) a

module _ {S : Type 0} where
  pub callbacks-callback_dec :
      (q : ℕ) (w : World S) → (callback_dec q w).callbacks ≡ after q w.callbacks
  unfolding callback_dec
  callbacks-callback_dec q w = fun_ext λ k. ground arith

  pub refs-callback_dec :
      (q : ℕ) (w : World S) (a : ℕ) → (callback_dec q w).refs a ≡ w.refs a - held (w.callbacks q) a
  unfolding callback_dec
  refs-callback_dec q w a = ground (
    arith,
    dec_all-count (take (w.callbacks q).args_n (w.callbacks q).args)
        (dec_handler (w.callbacks q).handler w.refs) a,
    dec_handler-count (w.callbacks q).handler w.refs a,
  )

  cleanup-callback_dec : (q : ℕ) (w : World S) → callback_cleanup q w ≡ callback_dec q w
  unfolding callback_cleanup callback_dec
  cleanup-callback_dec q w = ground arith

  pub refs-run_cleanups :
      (l : List ℕ) (w : World S) (a : ℕ)
      → (run_cleanups l w).refs a ≡ w.refs a - owed l w.callbacks a
  unfolding run_cleanups owed
  refs-run_cleanups [] w a = omega arith
  refs-run_cleanups (q ∷ l) w a =
      ap (λ v. (run_cleanups l v).refs a) (cleanup-callback_dec q w)
      ∙ omega (
        arith,
        refs-run_cleanups l (callback_dec q w) a,
        refs-callback_dec q w a,
        ap (λ c. owed l c a) (callbacks-callback_dec q w),
      )

-- A callback that gives back what it holds before the others leaves the sum as it is.
after_same : (q : ℕ) (c : ℕ → Callback) → after q (after q c) ≡ after q c
after_same q c = fun_ext λ k. ground arith

after_swap :
    (p q : ℕ) (c : ℕ → Callback) → (p == q) ≡ false → after q (after p c) ≡ after p (after q c)
after_swap p q c d = fun_ext λ k. ground arith

after_other : (p q : ℕ) (c : ℕ → Callback) → (p == q) ≡ false → after p c q ≡ c q
after_other p q c d = ground arith

held-after : (q : ℕ) (c : ℕ → Callback) (a : ℕ) → held (after q c q) a ≡ 0
held-after q c a = ground arith

pub owed-after :
    (l : List ℕ) (q : ℕ) (c : ℕ → Callback) (a : ℕ)
    → q ∈ l ≡ true
    → owed l (after q c) a + held (c q) a ≡ owed l c a
unfolding owed
owed-after [] q c a m = cc
owed-after (p ∷ l) q c a m = elim (Bool-cases (p == q)) [
  | inl same ↦
      let pq : q ≡ p = ground arith in
      subst
        (λ r.
          held (after q c r) a + owed l (after r (after q c)) a + held (c q) a
          ≡ held (c r) a + owed l (after r c) a)
        pq (omega (arith, held-after q c a, ap (λ d. owed l d a) (after_same q c)))
  | inr other ↦ omega (
    arith,
    owed-after l q (after p c) a (ground arith),
    ap (λ d. owed l d a) (after_swap q p c (ground arith)),
    ap (λ d. held d a) (after_other q p c (ground arith)),
    ap (λ d. held d a) (after_other p q c other),
  )
]

pub held_done : (c : Callback) (a : ℕ) → c.decremented ≡ true → held c a ≡ 0
held_done c a h = rw h refl

pub after_done : (q : ℕ) (c : ℕ → Callback) → (c q).decremented ≡ true → after q c ≡ c
after_done q c h = fun_ext λ k. ground arith

-- the callbacks when the error of one of them is set
abbrev pub told : ℕ → ErrorValue → (ℕ → Callback) → ℕ → Callback
told q err c = update c q (record (c q) { error = err })

after-told :
    (p q : ℕ) (err : ErrorValue) (c : ℕ → Callback)
    → after p (told q err c) ≡ told q err (after p c)
after-told p q err c = fun_ext λ k. ground arith

held-told :
    (p q : ℕ) (err : ErrorValue) (c : ℕ → Callback) (a : ℕ) → held (told q err c p) a ≡ held (c p) a
held-told p q err c a = ground arith

pub owed-told :
    (l : List ℕ) (q : ℕ) (err : ErrorValue) (c : ℕ → Callback) (a : ℕ)
    → owed l (told q err c) a ≡ owed l c a
unfolding owed
owed-told [] q err c a = refl
owed-told (p ∷ l) q err c a = omega (
  arith,
  held-told p q err c a,
  ap (λ d. owed l d a) (after-told p q err c),
  owed-told l q err (after p c) a,
)
