-- ===== src/Api/Pairs.antt =====
-- Functions of Engine.xs that do the work of two, and the sizes of new scalars.
use nginx_engine.Base.{
  ℕ, pos, ◌+◌, ◌≤◌, true, Option, some, [], ◌≡◌, refl, arith, ap, if_true, ◌∙◌, sym, if◌then◌else◌,
}
use nginx_engine.State.{World, Env, connection}
use nginx_engine.Connection.{reader_stop, writer_stop, reader_start}
use nginx_engine.Writer.{writer_start}
use nginx_engine.Api.{Globals, Reply, returned, if_initialized, with_session, returning, touch}
use nginx_engine.Api.Creation.{newsv_size}
use nginx_engine.Api.Calls.{
  perform, stops_reader, starts_writer, stops_reader_starts_writer, stops_writer, starts_reader,
  stops_writer_starts_reader,
}

module _ {S : Type 0} (e : Env S) (g : Globals) (fuel : ℕ) where
  touch_alive : (w : World S) → w.pool_alive ≡ true → touch w ≡ w
  touch_alive w a = ap (λ n. record w { stale_reads = n }) same
    where
      same : (if w.pool_alive then w.stale_reads else w.stale_reads + 1) ≡ w.stale_reads
      same = rw a refl

  with_session_alive :
      (next : World S → Option (Reply S)) (w : World S)
      → g.initialized ≡ true
      → w.has_pool ≡ true
      → w.has_session ≡ true
      → w.pool_alive ≡ true
      → with_session g connection next w ≡ next w
  unfolding with_session if_initialized
  with_session_alive next w i p s a =
      if_true g.initialized _ _ i
      ∙ if_true w.has_pool _ _ p
      ∙ if_true w.has_session _ _ s
      ∙ ap next (touch_alive w a)

  -- With the library initialised, on a connection with a session in a pool that is alive:
  -- ngxe_reader_stop_writer_start does what ngxe_reader_stop and then ngxe_writer_start without a
  -- timeout do, and ngxe_writer_stop_reader_start what ngxe_writer_stop and then ngxe_reader_start
  -- without a timeout do.
  pub perform_pairs :
      (w : World S)
      → g.initialized ≡ true
      → w.has_pool ≡ true
      → w.has_session ≡ true
      → w.pool_alive ≡ true
      → (v u : World S) × (perform e g fuel stops_reader connection w ≡ some (returned v))
        × (perform e g fuel stops_reader_starts_writer connection w
            ≡ perform e g fuel (starts_writer []) connection v)
        × (perform e g fuel stops_writer connection w ≡ some (returned u))
        × (perform e g fuel stops_writer_starts_reader connection w
            ≡ perform e g fuel (starts_reader []) connection u)
  unfolding perform if_initialized reader_stop writer_stop
  perform_pairs w i p s a = (
    reader_stop connection w,
    writer_stop connection w,
    if_true g.initialized _ _ i,
    if_true g.initialized _ _ i
        ∙ sym (
            with_session_alive
              (λ w.
                returning
                  (writer_start e fuel connection (record w { writer_timeout = w.writer_timeout })))
              (reader_stop connection w) i p s a),
    if_true g.initialized _ _ i,
    if_true g.initialized _ _ i
        ∙ sym (
            with_session_alive
              (λ w. some (
                returned
                  (reader_start e connection (record w { reader_timeout = w.reader_timeout }))))
              (writer_stop connection w) i p s a),
  )

-- A new scalar for a size that is not negative has at least that size, if a page has at least 16 bytes.
pub newsv_size_lem : (pagesize n : ℕ) → 16 ≤ pagesize → n ≤ newsv_size pagesize (pos n)
unfolding newsv_size
newsv_size_lem pagesize n h = ground (arith, h)
