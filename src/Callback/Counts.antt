-- ===== src/Callback/Counts.antt =====
-- ngxe_xs.c: the reference counts that a callback takes and gives back.
use nginx_engine.Base.{ℕ, ◌+◌, ◌-◌, List, [], ◌∷◌, ◌==◌, if◌then◌else◌, arith, ◌≡◌, fun_ext}
use nginx_engine.Callback.{inc, dec, inc_all, dec_all}

-- how often `a` stands in a list of arguments
abbrev pub count : ℕ → List ℕ → ℕ
count a [] = 0
count a (x ∷ xs) = if x == a then count a xs + 1 else count a xs

pub inc_all-count : (xs : List ℕ) (refs : ℕ → ℕ) (a : ℕ) → inc_all xs refs a ≡ refs a + count a xs
unfolding inc_all
inc_all-count [] refs a = omega arith
inc_all-count (x ∷ xs) refs a = ground (arith, inc_all-count xs (inc x refs) a)

pub dec_all-count : (xs : List ℕ) (refs : ℕ → ℕ) (a : ℕ) → dec_all xs refs a ≡ refs a - count a xs
unfolding dec_all
dec_all-count [] refs a = omega arith
dec_all-count (x ∷ xs) refs a = ground (arith, dec_all-count xs (dec x refs) a)

pub dec-dec_all-inc_all :
    (xs : List ℕ) (sub : ℕ) (refs : ℕ → ℕ) → dec sub (dec_all xs (inc_all xs (inc sub refs))) ≡ refs
dec-dec_all-inc_all xs sub refs = fun_ext λ a.
    ground
      (arith, dec_all-count xs (inc_all xs (inc sub refs)) a, inc_all-count xs (inc sub refs) a)
