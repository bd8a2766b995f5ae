-- ===== src/Tests/Starts.antt =====
-- The start-up. The state of the system is the number of calls that still succeed.
use nginx_engine.Base.{
  ℕ, zero, suc, ◌+◌, ◌^◌, ◌≤◌, ◌<◌, ◌≡◌, refl, Bool, true, false, List, [], ◌∷◌, none, some, pos,
  arith,
}
use nginx_engine.Boot.{
  Module, Calls, Boot, no_pool, freed, shift_of, set_indices, set_ctx_indices, init,
}
use nginx_engine.Boot.Laws.{NothingLeft, init-NothingLeft}
use nginx_engine.Boot.Pages.{shift_of_lem, set_indices_lem, set_ctx_indices_lem, events_before}

abbrev once : ℕ → Bool × ℕ
once zero = (false, 0)
once (suc s) = (true, s)

abbrev calls : Calls ℕ
calls = record {
  malloc = once;
  open_file = λ s. (some 3, s);
  os_specific_init = once;
  pagesize = 4096;
  getrlimit = λ s. (some 1024, s);
  create_pool = once;
  pcalloc = once;
  crc32_table_init = λ s. (true, s);
  init_signals = once;
  create_conf = λ m. once;
  init_conf = λ m. once;
  init_module = once;
  init_process = once;
  core_module = 100;
  event_core_module = 101;
  stderr = 2;
}

abbrev module_of : ℕ → Bool → Module
module_of n event = record {
  name = n;
  is_event = event;
  has_create = true;
  has_init = true;
  index = 0;
  ctx_index = 0;
}

abbrev modules : List Module
modules = module_of 100 false ∷ module_of 101 true ∷ module_of 102 false ∷ module_of 103 true ∷ []

abbrev before : ℕ → Boot ℕ
before successes = record {
  outside = successes;
  log_fd = none;
  pool = no_pool;
  pagesize = 0;
  pagesize_shift = 0;
  ncpu = 0;
  max_sockets = pos 0;
  use_stderr = false;
  modules = modules;
  confs = [];
  connection_n = 0;
}

started_test : (init calls false false 512 (before 40)).1.confs ≡ 103 ∷ 101 ∷ 101 ∷ 100 ∷ []
unfolding init
started_test = refl

failed_test : (init calls false false 512 (before 12)).1.pool ≡ freed
unfolding init
failed_test = refl

shift_test : shift_of 4096 4096 ≡ 12
unfolding shift_of
shift_test = refl

init-NothingLeft_example : NothingLeft (init calls false false 512 (before 12))
init-NothingLeft_example = init-NothingLeft calls (λ s. refl) false false 512 (before 12) refl

shift_of_lem_example : (2 ^ shift_of 5000 4096 ≤ 4096) × (4096 < 2 ^ suc (shift_of 5000 4096))
shift_of_lem_example = shift_of_lem 5000 4096 (omega arith) (omega arith)

set_indices_test : 2 ≡ 0 + 2
unfolding set_indices
set_indices_test = set_indices_lem 0 2 modules (record (module_of 102 false) { index = 2 }) refl

set_ctx_indices_test : 1 ≡ 0 + events_before 3 modules
unfolding set_ctx_indices
set_ctx_indices_test =
    set_ctx_indices_lem 0 3 modules (record (module_of 103 true) { ctx_index = 1 }) refl refl
