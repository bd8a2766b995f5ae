-- ===== src/Api/Debts.antt =====
-- What the cleanup handlers of a pool still give back when a connection is closed.
mod Owed
pub mod Kept
use nginx_engine.Base.{
  ℕ, ◌-◌, Bool, true, List, [], arith, ◌≡◌, refl, sym, ap, ◌∙◌, fun_ext, ◌⊎◌, inl, inr, Bool-cases,
  if_cases,
}
use mathlib.Core.Path.{subst}
use nginx_engine.State.{World, Env, Callback, ErrorValue, connection}
use nginx_engine.Callback.{callback_dec}
use nginx_engine.Connection.{run_cleanups, destroy_pool, close_connection, close}
use nginx_engine.Connection.Close.{◌∈◌, run_cleanups_keeps, run_cleanups_all}
use nginx_engine.Api.Debts.Owed.{
  after, owed, callbacks-callback_dec, refs-callback_dec, refs-run_cleanups, owed-after, held_done,
  after_done, told, owed-told,
}

-- Every callback is registered with the pool, or has given its references back, and the pool of a
-- connection that is destroyed has none.
pub record IsTidyOf (c : ℕ → Callback) (l : List ℕ) (d : Bool) : Type 0 where
  pub registered : (k : ℕ) → ((c k).decremented ≡ true) ⊎ (k ∈ l ≡ true)
  pub empty : d ≡ true → l ≡ []

abbrev pub IsTidy : {S : Type 0} → World S → Type 0
IsTidy w = IsTidyOf w.callbacks w.cleanups w.destroyed

module _ {S : Type 0} (e : Env S) where
  pub refs-close :
      (w : World S) (a : ℕ)
      → IsTidy w
      → (close e connection w).refs a ≡ w.refs a - owed w.cleanups w.callbacks a
  unfolding close destroy_pool close_connection
  refs-close w a h = elim (Bool-cases w.destroyed) [
    | inl d ↦ rw (d, h.empty d) (unfold owed in omega arith)
    | inr d ↦
        rw d (refs-run_cleanups w.cleanups (close_connection e (record w { destroyed = true })) a)
  ]

-- What is left of the counts when all is given back.
pub record OwesOf (r0 refs : ℕ → ℕ) (c : ℕ → Callback) (l : List ℕ) (d : Bool) : Type 0 where
  pub tidy : IsTidyOf c l d
  pub balance : (a : ℕ) → refs a - owed l c a ≡ r0 a

abbrev pub Owes : {S : Type 0} → (ℕ → ℕ) → World S → Type 0
Owes r0 w = OwesOf r0 w.refs w.callbacks w.cleanups w.destroyed

after-IsTidy :
    (q : ℕ) (c : ℕ → Callback) (l : List ℕ) (d : Bool) → IsTidyOf c l d → IsTidyOf (after q c) l d
after-IsTidy q c l d h = record {
  registered = λ k. elim (h.registered k) [ inl done ↦ inl (ground arith) | inr m ↦ inr m ];
  empty = h.empty;
}

module _ {S : Type 0} (r0 : ℕ → ℕ) where
  -- A callback gives back early what it would give back when the connection is closed.
  pub callback_dec-Owes : (q : ℕ) (w : World S) → Owes r0 w → Owes r0 (callback_dec q w)
  callback_dec-Owes q w h =
      subst
        (λ c.
          OwesOf r0 (callback_dec q w).refs c (callback_dec q w).cleanups
            (callback_dec q w).destroyed)
        (sym (callbacks-callback_dec q w))
        (rw (same.0, same.1)
          (record {
            tidy = after-IsTidy q w.callbacks w.cleanups w.destroyed h.tidy;
            balance = λ a. balance a (h.tidy.registered q);
          }))
    where
      same :
          ((callback_dec q w).cleanups ≡ w.cleanups) × ((callback_dec q w).destroyed ≡ w.destroyed)
      same = unfold callback_dec in ground arith

      balance :
          (a : ℕ)
          → ((w.callbacks q).decremented ≡ true) ⊎ (q ∈ w.cleanups ≡ true)
          → (callback_dec q w).refs a - owed w.cleanups (after q w.callbacks) a ≡ r0 a
      balance a (inl done) = omega (
        arith,
        refs-callback_dec q w a,
        held_done (w.callbacks q) a done,
        ap (λ c. owed w.cleanups c a) (after_done q w.callbacks done),
        h.balance a,
      )
      balance a (inr m) =
          omega
            (arith, refs-callback_dec q w a, owed-after w.cleanups q w.callbacks a m, h.balance a)

  module _ (e : Env S) where
    pub close-Owes : (w : World S) → Owes r0 w → Owes r0 (close e connection w)
    unfolding close destroy_pool close_connection
    close-Owes w h =
        if_cases (λ (v : World S). Owes r0 v) w.destroyed (λ d. h)
          (λ d. record {
            tidy = record {
              registered = λ k. inl (done k (h.tidy.registered k));
              empty = λ q. refl;
            };
            balance = λ a.
                unfold owed in omega (arith, refs-run_cleanups w.cleanups closing a, h.balance a);
          })
      where
        closing : World S
        closing = close_connection e (record w { destroyed = true })

        done :
            (k : ℕ)
            → ((w.callbacks k).decremented ≡ true) ⊎ (k ∈ w.cleanups ≡ true)
            → ((run_cleanups w.cleanups closing).callbacks k).decremented ≡ true
        done k (inl d) = run_cleanups_keeps w.cleanups k closing d
        done k (inr m) = run_cleanups_all w.cleanups k closing m

    pub close-refs : (w : World S) → Owes r0 w → (close e connection w).refs ≡ r0
    close-refs w h = fun_ext λ a. refs-close e w a h.tidy ∙ h.balance a

pub told-Owes :
    {S : Type 0} {r0 : ℕ → ℕ} (cb : ℕ) (err : ErrorValue) (w : World S)
    → Owes r0 w
    → OwesOf r0 w.refs (told cb err w.callbacks) w.cleanups w.destroyed
told-Owes cb err w o = record {
  tidy = record {
    registered = λ k. elim (o.tidy.registered k) [ inl done ↦ inl (ground arith) | inr m ↦ inr m ];
    empty = o.tidy.empty;
  };
  balance = λ a. omega (arith, owed-told w.cleanups cb err w.callbacks a, o.balance a);
}
