-- ===== src/Api/Creation.antt =====
-- The creation of a callback, as ngxe_reader and ngxe_writer contain it.
use nginx_engine.Base.{
  ℕ, ℤ, pos, negsuc, zero, suc, ◌+◌, ◌-◌, true, false, Option, none, some, [], ◌∷◌, ◌++◌, leb,
  if◌then◌else◌,
}
use nginx_engine.State.{World, Env, Callback, ErrorValue}
use nginx_engine.Callback.{update}
use nginx_engine.Api.{Globals, Reply, undefined, Supply, warn, abort, mint, share}

-- The size that `ngxe_buf_newsv(s)` hands to newSV.
unfoldable pub newsv_size : ℕ → ℤ → ℕ
newsv_size pagesize (negsuc n) = 4080
newsv_size pagesize (pos s) =
    if leb s 4080
    then 4080
    else if leb s 32768
    then 32768 + pagesize - 16
    else if leb s 262144
    then 262144 + pagesize - 16
    else if leb s 1048576
    then 1048576 + pagesize - 16
    else if leb s 4194304
    then 4194304
    else s

abbrev pub no_error : ErrorValue
no_error = record { iv = pos 0; pv = "" }

-- A callback from ngx_pcalloc.
abbrev pub blank : Callback
blank = record {
  handler = none;
  args = [];
  args_n = 0;
  decremented = false;
  native_handler = none;
  error = no_error;
  min_len = pos 0;
}

module _ {S : Type 0} (cb : ℕ) where
  abbrev pub change : (Callback → Callback) → World S → World S
  change f w = record w { callbacks = update w.callbacks cb (f (w.callbacks cb)) }

  -- cb->args[i] = a, for the next i
  abbrev pub push_arg : ℕ → World S → World S
  push_arg a w = change (λ c. record c { args = c.args ++ a ∷ [] }) w

  unfoldable pub new_arg : ℕ → World S → World S
  unfolding mint
  new_arg a w = push_arg a (mint a w)

  unfoldable pub shared_arg : ℕ → World S → World S
  shared_arg a w = push_arg a (share a w)

  -- The arguments that Perl code has passed behind the sub: the loops with args_extra.
  unfoldable pub extra_args : (ℕ → ℕ) → ℕ → World S → World S
  unfolding new_arg
  extra_args fresh zero w = w
  extra_args fresh (suc n) w = extra_args (λ i. fresh (i + 1)) n (new_arg (fresh 0) w)

  module _ (s : Supply) where
    -- The callback and its cleanup handler.
    unfoldable pub with_callback : (World S → Option (Reply S)) → World S → Option (Reply S)
    with_callback next w =
        if s.memory 0
        then (let w' = record w { callbacks = update w.callbacks cb blank } in
            if s.memory 1
            then next (record w' { cleanups = cb ∷ w.cleanups })
            else some (undefined (warn "Failed to allocate memory for callback's cleanup" w')))
        else some (undefined (warn "Failed to allocate memory for callback" w))

    -- The sub, and the array for `n` arguments, which is written to without a test for NULL.
    unfoldable pub with_args : ℕ → (World S → Option (Reply S)) → World S → Option (Reply S)
    unfolding mint
    with_args n next w =
        let w' =
          change (λ c. record c { handler = some (s.fresh 0); args_n = n }) (mint (s.fresh 0) w) in
        if s.memory 2 then next w' else some (abort w')

    -- $connection and $error
    unfoldable pub first_args : World S → World S
    unfolding new_arg
    first_args w = new_arg (s.fresh 2) (new_arg (s.fresh 1) w)

    -- $reader_buffer
    unfoldable pub reader_buffer_arg : Env S → Globals → World S → World S
    unfolding newsv_size new_arg shared_arg
    reader_buffer_arg e g w =
        if w.has_reader_buffer
        then shared_arg w.reader_scalar w
        else record (new_arg (s.fresh 3) w) {
          has_reader_buffer = true;
          reader_scalar = s.fresh 3;
          reader_buffer = record {
            bytes = [];
            len = e.grow 0 (newsv_size e.pagesize g.reader_buffer_size + 1);
          };
        }
