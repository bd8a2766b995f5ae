-- ===== src/Boot/Laws.antt =====
-- ngx_ngxe_init: what is left of the pool.
use nginx_engine.Base.{
  ℕ, Bool, true, false, Option, negsuc, none, some, List, [], ◌∷◌, ◌≡◌, ◌≢◌, refl, ◌⊎◌, inl, inr,
  if_rule,
}
use nginx_engine.Boot.{
  Module, Pool, no_pool, live, freed, Calls, Boot, log_init, limited, os_init, set_indices,
  set_ctx_indices, create_confs, init_confs, events_modules_init, init_processes, init_modules,
  init_confs_of_cores, init_cycle, init,
}

freed_lem : freed ≢ live
freed_lem h = cc

no_pool_lem : no_pool ≢ live
no_pool_lem h = cc

module _ {S : Type 0} where
  -- The start-up was successful and the pool is alive, or it was not and no pool is.
  abbrev pub NothingLeft : ℕ × Boot S → Type 0
  NothingLeft r = ((r.0 ≡ 0) × (r.1.pool ≡ live)) ⊎ ((r.0 ≡ 1) × (r.1.pool ≢ live))

  abbrev HasPool : Pool → Boot S → Type 0
  HasPool p b = b.pool ≡ p

  -- A function of the start-up leaves the pool.
  abbrev Keeps : Pool → Bool × Boot S → Type 0
  Keeps p r = HasPool p r.1

  module _ (c : Calls S) (p : Pool) where
    log_init-Keeps : (e : Bool) (b : Boot S) → HasPool p b → Keeps p (log_init c e b)
    unfolding log_init
    log_init-Keeps true b h = h
    log_init-Keeps false b h = if_rule (Keeps p) (c.malloc b.outside).0 h h

    limited-Keeps : (l : Option ℕ) (b : Boot S) → HasPool p b → Keeps p (limited c l b)
    unfolding limited
    limited-Keeps none b h = h
    limited-Keeps (some n) b h = h

    os_init-Keeps : (b : Boot S) → HasPool p b → Keeps p (os_init c b)
    unfolding os_init
    os_init-Keeps b h =
        if_rule (Keeps p) (c.os_specific_init b.outside).0
          (limited-Keeps (c.getrlimit (c.os_specific_init b.outside).1).0 _ h) h

    init_confs-Keeps : (ms : List Module) (b : Boot S) → HasPool p b → Keeps p (init_confs c ms b)
    unfolding init_confs
    init_confs-Keeps [] b h = h
    init_confs-Keeps (m ∷ ms) b h =
        if_rule (Keeps p) m.is_event
          (if_rule (Keeps p) m.has_init
            (if_rule (Keeps p) (c.init_conf m.name b.outside).0 (init_confs-Keeps ms _ h) h)
            (init_confs-Keeps ms b h))
          (init_confs-Keeps ms b h)

    create_confs-Keeps :
        (ms : List Module) (done : Boot S → Bool × Boot S)
        → ((b : Boot S) → HasPool p b → Keeps p (done b))
        → (b : Boot S) → HasPool p b
        → Keeps p (create_confs c ms done b)
    unfolding create_confs
    create_confs-Keeps [] done d b h = d b h
    create_confs-Keeps (m ∷ ms) done d b h =
        if_rule (Keeps p) m.is_event
          (if_rule (Keeps p) m.has_create
            (if_rule (Keeps p) (c.create_conf m.name b.outside).0 (create_confs-Keeps ms done d _ h)
              h)
            (create_confs-Keeps ms done d b h))
          (create_confs-Keeps ms done d b h)

    events_modules_init-Keeps : (b : Boot S) → HasPool p b → Keeps p (events_modules_init c b)
    unfolding events_modules_init
    events_modules_init-Keeps b h =
        let ms : List Module = set_ctx_indices 0 b.modules in
        if_rule (Keeps p) (c.pcalloc b.outside).0
          (if_rule (Keeps p) (c.pcalloc (c.pcalloc b.outside).1).0
            (create_confs-Keeps ms (init_confs c ms) (init_confs-Keeps ms) _ h) h)
          h

  module _ (c : Calls S) where
    abbrev L : ℕ × Boot S → Type 0
    L = NothingLeft

    init_processes-NothingLeft : (n : ℕ) (b : Boot S) → HasPool live b → L (init_processes c n b)
    unfolding init_processes
    init_processes-NothingLeft n b h =
        if_rule L (c.init_module b.outside).0
          (if_rule L (c.init_process (c.init_module b.outside).1).0 (inl (refl, h))
            (inr (refl, freed_lem)))
          (inr (refl, freed_lem))

    init_modules-NothingLeft : (n : ℕ) (b : Boot S) → HasPool live b → L (init_modules c n b)
    unfolding init_modules
    init_modules-NothingLeft n b h =
        let r = events_modules_init c b in
        if_rule L r.0 (init_processes-NothingLeft n r.1 (events_modules_init-Keeps c live b h))
          (inr (refl, freed_lem))

    init_confs_of_cores-NothingLeft :
        (n : ℕ) (b : Boot S) → HasPool live b → L (init_confs_of_cores c n b)
    unfolding init_confs_of_cores
    init_confs_of_cores-NothingLeft n b h =
        let s1 : S = (c.create_conf c.core_module b.outside).1 in
        let s2 : S = (c.init_conf c.core_module s1).1 in
        let s3 : S = (c.create_conf c.event_core_module s2).1 in
        if_rule L (c.create_conf c.core_module b.outside).0
          (if_rule L (c.init_conf c.core_module s1).0
            (if_rule L (c.create_conf c.event_core_module s2).0
              (if_rule L (c.init_conf c.event_core_module s3).0
                (init_modules-NothingLeft n
                  (record b {
                    outside = (c.init_conf c.event_core_module s3).1;
                    confs = c.event_core_module ∷ c.core_module ∷ b.confs;
                  })
                  h)
                (inr (refl, freed_lem)))
              (inr (refl, freed_lem)))
            (inr (refl, freed_lem)))
          (inr (refl, freed_lem))

    init_cycle-NothingLeft :
        ((s : S) → (c.crc32_table_init s).0 ≡ true)
        → (e : Bool) (n : ℕ) (b : Boot S) → HasPool live b
        → L (init_cycle c e n b)
    unfolding init_cycle
    init_cycle-NothingLeft t e n b h =
        let s1 : S = (c.crc32_table_init b.outside).1 in
        let s2 : S = (c.init_signals s1).1 in
        rw (t b.outside) (
          if_rule L (c.init_signals s1).0
            (if_rule L (c.pcalloc s2).0
              (init_confs_of_cores-NothingLeft n
                (record b {
                  outside = (c.pcalloc s2).1;
                  use_stderr = e;
                  modules = set_indices 0 b.modules;
                })
                h)
              (inr (refl, freed_lem)))
            (inr (refl, freed_lem)))

    -- ngx_ngxe_init, started without a pool, returns 0 with a pool that is alive, or 1 with none
    -- that is, whatever other call fails, if ngx_crc32_table_init does not.
    pub init-NothingLeft :
        ((s : S) → (c.crc32_table_init s).0 ≡ true)
        → (no_name use_stderr : Bool) (connections : ℕ) (b : Boot S) → b.pool ≡ no_pool
        → NothingLeft (init c no_name use_stderr connections b)
    unfolding init
    init-NothingLeft t no_name use_stderr connections b h =
        let r = log_init c no_name (record b { max_sockets = negsuc 0 }) in
        let k : HasPool no_pool r.1 = log_init-Keeps c no_pool no_name _ h in
        let q = os_init c r.1 in
        let k' : HasPool no_pool q.1 = os_init-Keeps c no_pool r.1 k in
        if_rule L r.0
          (if_rule L q.0
            (if_rule L (c.create_pool q.1.outside).0
              (if_rule L (c.pcalloc (c.create_pool q.1.outside).1).0
                (init_cycle-NothingLeft t use_stderr connections
                  (record q.1 {
                    outside = (c.pcalloc (c.create_pool q.1.outside).1).1;
                    pool = live;
                  })
                  refl)
                (inr (refl, freed_lem)))
              (inr (refl, rw k' no_pool_lem)))
            (inr (refl, rw k' no_pool_lem)))
          (inr (refl, rw k no_pool_lem))
