-- ===== src/Boot/Pages.antt =====
-- The shift of the page size, and the indices of the modules.
use nginx_engine.Base.{
  ℕ, zero, suc, ◌+◌, ◌/◌, ◌^◌, ◌≤◌, ◌<◌, ◌==◌, true, false, some, List, [], ◌∷◌, get_elem?,
  if◌then◌else◌, ◌≡◌, arith, if_cases, ap, ◌∙◌,
}
use mathlib.Core.Option.{some-injective}
use mathlib.Core.Path.{sym}
use mathlib.Core.Bool.{true≢false}
use native.Mathlib.Omega.{pow_step}
use nginx_engine.Boot.{Module, shift_of, set_indices, set_ctx_indices}

half_zero : (n : ℕ) → n / 2 == 0 ≡ true → n < 2
half_zero n h = ground arith

half_positive : (n : ℕ) → n / 2 == 0 ≡ false → 0 < n / 2
half_positive n h = ground arith

double : (k n : ℕ) → 2 ^ k ≤ n / 2 → n / 2 < 2 ^ suc k → (2 ^ suc k ≤ n) × (n < 2 ^ suc (suc k))
double k n l h = (omega (arith, pow_step 2 k), omega (arith, pow_step 2 (suc k)))

-- The shift is the number of the highest bit: for a size that is not 0 and no larger than the
-- fuel, 2 to the shift is at most the size, and the next power of 2 is larger.
pub shift_of_lem :
    (fuel n : ℕ) → 0 < n → n ≤ fuel → (2 ^ shift_of fuel n ≤ n) × (n < 2 ^ suc (shift_of fuel n))
unfolding shift_of
shift_of_lem zero n p h = absurd (omega arith)
shift_of_lem (suc fuel) n p h =
    if_cases (λ k. (2 ^ k ≤ n) × (n < 2 ^ suc k)) (n / 2 == 0)
      (λ z. (omega arith, omega (arith, half_zero n z)))
      (λ s.
        let rest = shift_of_lem fuel (n / 2) (half_positive n s) (omega arith) in
        double (shift_of fuel (n / 2)) n rest.0 rest.1)

-- Module i gets the index i, counted from the first index.
pub set_indices_lem :
    (n i : ℕ) (ms : List Module) (m : Module)
    → get_elem? (set_indices n ms) i ≡ some m
    → m.index ≡ n + i
unfolding set_indices
set_indices_lem n i [] m h = absurd cc
set_indices_lem n zero (x ∷ ms) m h = ap Module.index (sym (some-injective _ _ h)) ∙ omega arith
set_indices_lem n (suc i) (x ∷ ms) m h = set_indices_lem (n + 1) i ms m h ∙ omega arith

-- how many event modules stand before position i
abbrev pub events_before : ℕ → List Module → ℕ
events_before zero ms = 0
events_before (suc i) [] = 0
events_before (suc i) (m ∷ ms) = if m.is_event then suc (events_before i ms) else events_before i ms

plus_one : (n k : ℕ) → n + 1 + k ≡ n + suc k
plus_one n k = omega arith

-- The context index of an event module is the number of event modules before it, counted from the
-- first index.
pub set_ctx_indices_lem :
    (n i : ℕ) (ms : List Module) (m : Module)
    → get_elem? (set_ctx_indices n ms) i ≡ some m
    → m.is_event ≡ true
    → m.ctx_index ≡ n + events_before i ms
unfolding set_ctx_indices
set_ctx_indices_lem n i [] m h y = absurd cc
set_ctx_indices_lem n zero (x ∷ ms) m h y =
    if_cases (λ l. get_elem? l 0 ≡ some m → m.ctx_index ≡ n + 0) x.is_event
      (λ event g. ap Module.ctx_index (sym (some-injective _ _ g)) ∙ omega arith)
      (λ other g.
        absurd (true≢false (sym y ∙ ap Module.is_event (sym (some-injective x m g)) ∙ other)))
      h
set_ctx_indices_lem n (suc i) (x ∷ ms) m h y =
    if_cases (λ l. get_elem? l (suc i) ≡ some m → m.ctx_index ≡ n + events_before (suc i) (x ∷ ms))
      x.is_event
      (λ event g.
        rw event (set_ctx_indices_lem (n + 1) i ms m g y ∙ plus_one n (events_before i ms)))
      (λ other g. rw other (set_ctx_indices_lem n i ms m g y)) h
