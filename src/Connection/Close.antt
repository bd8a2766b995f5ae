-- ===== src/Connection/Close.antt =====
-- ngxe_close and the error path: the connection is released once, and its pool with it.
use nginx_engine.Base.{
  ℕ, suc, ◌+◌, Bool, true, false, not, none, List, [], ◌∷◌, ◌==◌, if◌then◌else◌, arith, ◌≡◌, refl,
  inl, inr, Bool-cases,
}
use nginx_engine.State.{
  World, Env, Action, called, closed, logged, crashed, warned, Pointer, null, connection,
  ErrorValue,
}
use nginx_engine.Callback.{callback_dec, callback_cleanup}
use nginx_engine.Connection.{run_cleanups, close_connection, close, fail, log}

-- how often the connection was released
abbrev pub releases : List Action → ℕ
releases [] = 0
releases (closed ∷ t) = suc (releases t)
releases (called cb err ∷ t) = releases t
releases (logged line ∷ t) = releases t
releases (crashed ∷ t) = releases t
releases (warned line ∷ t) = releases t

-- The pool lives as long as the connection, and the connection was released once if it is
-- destroyed, and otherwise never.
pub record IsCoherent {S : Type 0} (w : World S) : Type 0 where
  pub pool : w.pool_alive ≡ not w.destroyed
  pub once : releases w.trace ≡ (if w.destroyed then 1 else 0)

infix 50 ◌∈◌
abbrev pub ◌∈◌ : ℕ → List ℕ → Bool
k ∈ [] = false
k ∈ (x ∷ xs) = if x == k then true else k ∈ xs

module _ {S : Type 0} where
  pub destroyed-run_cleanups :
      (cbs : List ℕ) (w : World S)
      → ((run_cleanups cbs w).destroyed ≡ w.destroyed) × ((run_cleanups cbs w).trace ≡ w.trace)
  unfolding run_cleanups callback_cleanup
  destroyed-run_cleanups [] w = (refl, refl)
  destroyed-run_cleanups (cb ∷ cbs) w =
      ground (arith, destroyed-run_cleanups cbs (callback_cleanup cb w))

  callback_dec_keeps :
      (cb k : ℕ) (w : World S)
      → (w.callbacks k).decremented ≡ true
      → ((callback_dec cb w).callbacks k).decremented ≡ true
  unfolding callback_dec
  callback_dec_keeps cb k w h = ground arith

  callback_cleanup_done :
      (cb : ℕ) (w : World S) → ((callback_cleanup cb w).callbacks cb).decremented ≡ true
  unfolding callback_cleanup
  callback_cleanup_done cb w = ground arith

  pub run_cleanups_keeps :
      (cbs : List ℕ) (k : ℕ) (w : World S)
      → (w.callbacks k).decremented ≡ true
      → ((run_cleanups cbs w).callbacks k).decremented ≡ true
  unfolding run_cleanups callback_cleanup
  run_cleanups_keeps [] k w h = h
  run_cleanups_keeps (cb ∷ cbs) k w h =
      run_cleanups_keeps cbs k (callback_cleanup cb w) (ground (arith, callback_dec_keeps cb k w))

  -- After the cleanup handlers every callback of the pool has given its references back.
  pub run_cleanups_all :
      (cbs : List ℕ) (k : ℕ) (w : World S)
      → k ∈ cbs ≡ true
      → ((run_cleanups cbs w).callbacks k).decremented ≡ true
  unfolding run_cleanups
  run_cleanups_all [] k w h = cc
  run_cleanups_all (cb ∷ cbs) k w h = elim (Bool-cases (cb == k)) [
    | inl same ↦
        run_cleanups_keeps cbs k (callback_cleanup cb w)
          (ground (arith, callback_cleanup_done cb w))
    | inr other ↦ run_cleanups_all cbs k (callback_cleanup cb w) (ground arith)
  ]

  -- What `ngxe_close` leaves of a connection that it releases.
  pub record IsReleased (w w' : World S) : Type 0 where
    pub dead : w'.destroyed ≡ true
    pub pool_freed : w'.pool_alive ≡ false
    pub no_read_timer : w'.read.timer ≡ none
    pub no_write_timer : w'.write.timer ≡ none
    pub one_more : releases w'.trace ≡ releases w.trace + 1

  timers-run_cleanups :
      (cbs : List ℕ) (w : World S)
      → ((run_cleanups cbs w).read ≡ w.read) × ((run_cleanups cbs w).write ≡ w.write)
  unfolding run_cleanups callback_cleanup
  timers-run_cleanups [] w = (refl, refl)
  timers-run_cleanups (cb ∷ cbs) w = ground (arith, timers-run_cleanups cbs (callback_cleanup cb w))

  module _ (e : Env S) where
    -- A connection that is not destroyed is released once: the flag is set, the pool is freed and no
    -- timer is left.
    pub close-IsReleased : (w : World S) → w.destroyed ≡ false → IsReleased w (close e connection w)
    unfolding close
    close-IsReleased w h = rw h (
        ground (
          arith,
          destroyed-run_cleanups w.cleanups (close_connection e (record w { destroyed = true })),
          timers-run_cleanups w.cleanups (close_connection e (record w { destroyed = true })),
        ))

    -- When it is released, every callback whose cleanup handler is registered with the pool has given
    -- its references back.
    pub close-decremented :
        (w : World S) (k : ℕ)
        → w.destroyed ≡ false
        → k ∈ w.cleanups ≡ true
        → ((close e connection w).callbacks k).decremented ≡ true
    unfolding close
    close-decremented w k h m =
        rw h (run_cleanups_all w.cleanups k (close_connection e (record w { destroyed = true })) m)

    pub close-destroyed : (w : World S) → (close e connection w).destroyed ≡ true
    unfolding close
    close-destroyed w = ground (
      arith,
      destroyed-run_cleanups w.cleanups (close_connection e (record w { destroyed = true })),
    )

    -- A second `ngxe_close` of one connection only leaves a line in the log.
    pub close-close :
        (w : World S)
        → close e connection (close e connection w)
          ≡ log "ngxe_close() called on destroyed connection" (close e connection w)
    close-close w = close_destroyed (close e connection w) (close-destroyed w)
      where
        close_destroyed :
            (v : World S)
            → v.destroyed ≡ true
            → close e connection v ≡ log "ngxe_close() called on destroyed connection" v
        close_destroyed v h = unfold close in rw h

    pub close-IsCoherent : (p : Pointer) (w : World S) → IsCoherent w → IsCoherent (close e p w)
    unfolding close
    close-IsCoherent null w h = ground arith
    close-IsCoherent connection w h = ground (
      arith,
      destroyed-run_cleanups w.cleanups (close_connection e (record w { destroyed = true })),
    )

    pub fail-destroyed :
        (cb : ℕ) (err : ErrorValue) (w : World S) → (fail e cb err w).destroyed ≡ true
    unfolding fail
    fail-destroyed cb err w = close-destroyed _
