-- ===== src/Api/Loop.antt =====
-- ngxe_loop ends when it is told to.
use nginx_engine.Base.{
  ℕ, ℤ, pos, negsuc, false, List, ◌≤◌, zero, suc, ◌+◌, ◌<◌, Bool, true, ◌||◌, some, ◌≡◌, refl,
  arith,
}
use nginx_engine.Api.Process.{
  Process, go_on, rounds, started, refused, connections_of, is_low, size_of, at_least_16, ngxe_init,
}
use nginx_engine.Api.{Globals}
use nginx_engine.Boot.{Boot, Calls}
use nginx_engine.Boot as Start

module _ {S : Type 0} (process_events : Process S → Process S) (reopen_files : S → S) where
  -- The state in which the round with the number `k` begins, if no round before it was the last.
  abbrev pub begins_at : ℕ → Process S → Process S
  begins_at zero p = p
  begins_at (suc k) p = begins_at k (go_on process_events reopen_files (process_events p))

  abbrev pub is_last : ℕ → Process S → Bool
  is_last k p = (process_events (begins_at k p)).terminate || (process_events (begins_at k p)).quit

  -- The loop ends in the first round whose events set `ngx_terminate` or `ngx_quit`, with what
  -- these events have left, whatever more fuel there is.
  pub rounds_end :
      (k more : ℕ) (p : Process S)
      → ((i : ℕ) → i < k → is_last i p ≡ false)
      → is_last k p ≡ true
      → rounds process_events reopen_files (suc (k + more)) p
        ≡ some (process_events (begins_at k p))
  unfolding rounds
  rounds_end zero more p before last = rw last refl
  rounds_end (suc k) more p before last =
      rw (before 0 (omega arith), unary)
        (rounds_end k more (go_on process_events reopen_files (process_events p))
          (λ i l. before (suc i) (omega (arith, l))) last)
    where
      unary : suc k + more ≡ suc (k + more)
      unary = omega arith

at_least_16_lem : (n : ℤ) → 16 ≤ at_least_16 n
at_least_16_lem (pos n) = ground arith
at_least_16_lem (negsuc n) = omega arith

-- ngxe_init on a library that is not initialised starts nginx for 16 connections or more and marks the
-- library as initialised, whatever ngx_ngxe_init returns; a second ngxe_init croaks and changes nothing.
pub ngxe_init_once :
    {S : Type 0} (c : Calls S) (no_name : Bool) (args : List ℤ) (g : Globals) (b : Boot S)
    → g.initialized ≡ false
    → (g' : Globals) × (b' : Boot S) × (n : ℕ) × (ngxe_init c no_name args g b
        ≡ started (is_low (connections_of args)) g' b')
      × (g'.initialized ≡ true)
      × (16 ≤ n)
      × (b' ≡ (Start.init c no_name false n b).1)
      × ((again : List ℤ) (b'' : Boot S) → ngxe_init c no_name again g' b'' ≡ refused g' b'')
unfolding ngxe_init
ngxe_init_once c no_name args g b h = (
  record g {
    reader_buffer_size = size_of args g.reader_buffer_size;
    connection_bufsize = size_of args g.reader_buffer_size;
    svlen = size_of args g.reader_buffer_size;
    initialized = true;
  },
  (Start.init c no_name false (at_least_16 (connections_of args)) b).1,
  at_least_16 (connections_of args),
  rw h refl,
  refl,
  at_least_16_lem (connections_of args),
  refl,
  λ again b''. refl,
)
