-- ===== src/Boot.antt =====
-- The start-up of ngxe_ngx.c: ngx_ngxe_init and what it calls of that file.
pub mod Laws
pub mod Pages
use nginx_engine.Base.{
  ℕ, zero, suc, ◌+◌, ◌/◌, ◌==◌, ℤ, pos, negsuc, Bool, true, false, Option, none, some, List, [],
  ◌∷◌, if◌then◌else◌,
}

-- An element of ngx_modules. `is_event` is `type == NGX_EVENT_MODULE`; `has_create` and `has_init` say
-- whether the module's create_conf and init_conf are not NULL.
pub record Module : Type 0 where
  pub name : ℕ
  pub is_event : Bool
  pub has_create : Bool
  pub has_init : Bool
  pub index : ℕ
  pub ctx_index : ℕ

pub data Pool : Type 0 where
  no_pool live freed : Pool

-- The functions of nginx and of the system that are called. A `Bool` is true on success.
pub record Calls (S : Type 0) : Type 0 where
  pub malloc : S → Bool × S
  pub open_file : S → Option ℕ × S
  pub os_specific_init : S → Bool × S
  pub pagesize : ℕ
  pub getrlimit : S → Option ℕ × S
  pub create_pool : S → Bool × S
  pub pcalloc : S → Bool × S
  pub crc32_table_init : S → Bool × S
  pub init_signals : S → Bool × S
  pub create_conf : ℕ → S → Bool × S
  pub init_conf : ℕ → S → Bool × S
  pub init_module : S → Bool × S
  pub init_process : S → Bool × S
  pub core_module : ℕ
  pub event_core_module : ℕ
  pub stderr : ℕ

-- The variables that the start-up sets. `confs` names the modules whose configuration was made,
-- newest first.
pub record Boot (S : Type 0) : Type 0 where
  pub outside : S
  pub log_fd : Option ℕ
  pub pool : Pool
  pub pagesize : ℕ
  pub pagesize_shift : ℕ
  pub ncpu : ℕ
  pub max_sockets : ℤ
  pub use_stderr : Bool
  pub modules : List Module
  pub confs : List ℕ
  pub connection_n : ℕ

-- `for (n = ngx_pagesize; n >>= 1; ngx_pagesize_shift++)`: what is added to the shift.
unfoldable pub shift_of : ℕ → ℕ → ℕ
shift_of zero n = 0
shift_of (suc fuel) n = let rest = shift_of fuel (n / 2) in if n / 2 == 0 then 0 else suc rest

-- ngx_modules[i]->index = ngx_max_module++
unfoldable pub set_indices : ℕ → List Module → List Module
set_indices n [] = []
set_indices n (m ∷ ms) = record m { index = n } ∷ set_indices (n + 1) ms

-- ngx_modules[i]->ctx_index = ngx_event_max_module++, for the event modules
unfoldable pub set_ctx_indices : ℕ → List Module → List Module
set_ctx_indices n [] = []
set_ctx_indices n (m ∷ ms) =
    if m.is_event
    then record m { ctx_index = n } ∷ set_ctx_indices (n + 1) ms
    else m ∷ set_ctx_indices n ms

module _ {S : Type 0} where
  -- A call, and what follows where it succeeds and where it fails.
  abbrev pub attempt {ℓ} : {A : Type ℓ} → (S → Bool × S) → (Boot S → A) → (Boot S → A) → Boot S → A
  attempt call done failed b =
      let (ok, s) = call b.outside in
      if ok then done (record b { outside = s }) else failed (record b { outside = s })

  -- `return 1;` without and with ngx_destroy_pool(pool)
  abbrev pub give_up : Boot S → ℕ × Boot S
  give_up b = (1, b)

  abbrev pub release : Boot S → ℕ × Boot S
  release b = (1, record b { pool = freed })

  abbrev pub made : ℕ → Boot S → Boot S
  made name b = record b { confs = name ∷ b.confs }

  module _ (c : Calls S) where
    -- ngx_ngxe_log_init. The name of the log file is empty or not.
    unfoldable pub log_init : Bool → Boot S → Bool × Boot S
    log_init true b = (true, record b { log_fd = some c.stderr })
    log_init false b =
        attempt c.malloc
          (λ b'.
            let (fd, s) = c.open_file b'.outside in
            (
              true,
              record b' {
                outside = s;
                log_fd = elim fd [ none ↦ some c.stderr | some n ↦ some n ];
              },
            ))
          (λ b'. (false, b')) b

    -- ngx_max_sockets = rlmt.rlim_cur
    unfoldable pub limited : Option ℕ → Boot S → Bool × Boot S
    limited none b = (false, b)
    limited (some n) b = (true, record b { max_sockets = pos n })

    -- ngx_ngxe_os_init, on a system that has its own part of it
    unfoldable pub os_init : Boot S → Bool × Boot S
    unfolding shift_of limited
    os_init b =
        attempt c.os_specific_init
          (λ b'.
            let (limit, s) = c.getrlimit b'.outside in
            limited limit (record b' {
              outside = s;
              pagesize = c.pagesize;
              pagesize_shift = b'.pagesize_shift + shift_of c.pagesize c.pagesize;
              ncpu = if b'.ncpu == 0 then 1 else b'.ncpu;
            }))
          (λ b'. (false, b')) b

    -- The second and the third loop of ngx_events_modules_init, with what follows them.
    unfoldable pub create_confs : List Module → (Boot S → Bool × Boot S) → Boot S → Bool × Boot S
    create_confs [] done b = done b
    create_confs (m ∷ ms) done b =
        if m.is_event
        then if m.has_create
          then attempt (c.create_conf m.name) (λ b'. create_confs ms done (made m.name b'))
              (λ b'. (false, b')) b
          else create_confs ms done b
        else create_confs ms done b

    unfoldable pub init_confs : List Module → Boot S → Bool × Boot S
    init_confs [] b = (true, b)
    init_confs (m ∷ ms) b =
        if m.is_event
        then if m.has_init
          then attempt (c.init_conf m.name) (init_confs ms) (λ b'. (false, b')) b
          else init_confs ms b
        else init_confs ms b

    -- ngx_events_modules_init
    unfoldable pub events_modules_init : Boot S → Bool × Boot S
    unfolding set_ctx_indices create_confs init_confs
    events_modules_init b =
        let ms = set_ctx_indices 0 b.modules in
        attempt c.pcalloc (attempt c.pcalloc (create_confs ms (init_confs ms)) (λ b'. (false, b')))
          (λ b'. (false, b')) (record b { modules = ms })

    -- ngx_ngxe_init from the configurations on: lines 594 to 652.
    unfoldable pub init_processes : ℕ → Boot S → ℕ × Boot S
    init_processes connections =
        attempt c.init_module
          (λ b.
            attempt c.init_process (λ b'. (0, b')) release
              (record b { connection_n = connections }))
          release

    unfoldable pub init_modules : ℕ → Boot S → ℕ × Boot S
    unfolding events_modules_init init_processes
    init_modules connections b =
        let (ok, b') = events_modules_init b in
        if ok then init_processes connections b' else release b'

    unfoldable pub init_confs_of_cores : ℕ → Boot S → ℕ × Boot S
    unfolding init_modules
    init_confs_of_cores connections =
        attempt (c.create_conf c.core_module)
          (λ b1.
            attempt (c.init_conf c.core_module)
              (attempt (c.create_conf c.event_core_module)
                (λ b2.
                  attempt (c.init_conf c.event_core_module) (init_modules connections) release
                    (made c.event_core_module b2))
                release)
              release (made c.core_module b1))
          release

    -- Lines 549 to 594: the cycle exists.
    unfoldable pub init_cycle : Bool → ℕ → Boot S → ℕ × Boot S
    unfolding set_indices init_confs_of_cores
    init_cycle use_stderr connections =
        attempt c.crc32_table_init
          (attempt c.init_signals
            (λ b.
              attempt c.pcalloc (init_confs_of_cores connections) release
                (record b { use_stderr = use_stderr; modules = set_indices 0 b.modules }))
            release)
          give_up

    -- ngx_ngxe_init
    unfoldable pub init : Bool → Bool → ℕ → Boot S → ℕ × Boot S
    unfolding log_init os_init init_cycle
    init no_name use_stderr connections b =
        let (logs, b1) = log_init no_name (record b { max_sockets = negsuc 0 }) in
        if logs
        then (let (runs, b2) = os_init b1 in
            if runs
            then attempt c.create_pool
                (λ b3.
                  attempt c.pcalloc (init_cycle use_stderr connections) release
                    (record b3 { pool = live }))
                give_up b2
            else give_up b2)
        else give_up b1
