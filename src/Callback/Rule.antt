-- ===== src/Callback/Rule.antt =====
-- ngxe_callback: what holds after it, from what holds after each of its three ways.
use nginx_engine.Base.{ℕ, Bool, none, some, ◌≡◌, refl}
use nginx_engine.State.{World, Env}
use nginx_engine.Callback.{call_perl, callback}

module _ {ℓ} {S : Type 0} (e : Env S) (P : World S → Type ℓ) where
  pub callback_cases :
      (cb : ℕ) (d : Bool) (w : World S)
      → ((sub : ℕ) → (w.callbacks cb).handler ≡ some sub → P (call_perl e cb sub d w))
      → ((f : ℕ) → P (e.call_native f w))
      → P w
      → P (callback e cb d w)
  unfolding callback
  callback_cases cb d w perl native same =
      (elim (w.callbacks cb).handler
          as (λ h.
            ((w.callbacks cb).handler ≡ h)
            → P (elim h [
              | none ↦ elim (w.callbacks cb).native_handler [
                | none ↦ w
                | some f ↦ e.call_native f w
              ]
              | some sub ↦ call_perl e cb sub d w
            ])) [
              | none ↦ λ q.
                  elim (w.callbacks cb).native_handler
                    as (λ n. P (elim n [ none ↦ w | some f ↦ e.call_native f w ])) [
                      | none ↦ same
                      | some f ↦ native f
                    ]
              | some sub ↦ perl sub
            ])
        refl

  pub callback_rule :
      (cb : ℕ) (d : Bool) (w : World S)
      → ((sub : ℕ) → P (call_perl e cb sub d w))
      → ((f : ℕ) → P (e.call_native f w))
      → P w
      → P (callback e cb d w)
  callback_rule cb d w perl native same = callback_cases cb d w (λ sub h. perl sub) native same
