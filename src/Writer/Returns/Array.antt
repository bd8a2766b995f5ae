-- ===== src/Writer/Returns/Array.antt =====
-- ngxe_rvpvav_writer_handler returns.
use nginx_engine.Base.{
  ℕ, zero, suc, ◌+◌, ◌-◌, ◌*◌, ◌≤◌, ◌<◌, true, false, Option, none, some, is_some, List, [], ◌∷◌,
  length, get_elem?, ◌≡◌, refl, arith, if_rule, if_cases,
}
use nginx_engine.State.{
  Buffer, World, Env, Item, scalar, not_ref, Sent, accepted, write_again, write_failed, undef,
}
use nginx_engine.Callback.{callback, call_perl, push_args}
use nginx_engine.Callback.Rule.{callback_rule}
use nginx_engine.Connection.{is_dummy}
use nginx_engine.Writer.Offset.{to_int, has_more, text_from}
use nginx_engine.Writer.Blocks.{
  Jump, return, next_buf, send_again, done, after_callback, drive, retry_write,
}
use nginx_engine.Writer.Scalar.{is_ref}
use nginx_engine.Writer.Array.{
  items, item_bytes, current, next_at, next_block, after_send, send_block, after_done, done_block,
  enter, labels,
}
use nginx_engine.Writer.Returns.Rules.{Fills, Below, IsBounded, drive_returns}

-- An array of at most `most` elements, if the buffer is a reference at all.
abbrev pub HasAtMost : {S : Type 0} → Env S → ℕ → Buffer → Type 0
HasAtMost e most b = is_ref b ≡ true → length (items e b) ≤ most

-- Subs have finitely many arrays to write, of at most `most` elements each: when one puts an array in
-- where none was, `left` is smaller.
pub record Ends {S : Type 0} (e : Env S) (left : S → ℕ) (most : ℕ) : Type 0 where
  pub sub :
      (k : ℕ) (w : World S)
      → is_ref w.writer_buffer ≡ false
      → is_ref (e.call_sv k w).writer_buffer ≡ true
      → (left (e.call_sv k w).outside < left w.outside)
        × (length (items e (e.call_sv k w).writer_buffer) ≤ most)
  pub native :
      (f : ℕ) (w : World S)
      → is_ref w.writer_buffer ≡ false
      → is_ref (e.call_native f w).writer_buffer ≡ true
      → (left (e.call_native f w).outside < left w.outside)
        × (length (items e (e.call_native f w).writer_buffer) ≤ most)

-- The rounds for `n` arrays.
unfoldable pub rounds : ℕ → ℕ → ℕ
rounds most zero = 0
rounds most (suc n) = rounds most n + (2 * most + 4)

rounds-less : (most m n : ℕ) → m < n → rounds most m + (2 * most + 4) ≤ rounds most n
unfolding rounds
rounds-less most m zero h = absurd (omega arith)
rounds-less most zero (suc n) h = omega arith
rounds-less most (suc m) (suc n) h = omega (arith, rounds-less most m n (omega arith))

pub rounds_mono : (most m n : ℕ) → m ≤ n → rounds most m ≤ rounds most n
unfolding rounds
rounds_mono most zero n h = omega arith
rounds_mono most (suc m) zero h = absurd (omega arith)
rounds_mono most (suc m) (suc n) h = omega (arith, rounds_mono most m n (omega arith))

-- The rounds that are enough for a handler that starts at this position.
abbrev pub enough : {S : Type 0} → Env S → (S → ℕ) → ℕ → World S → ℕ
enough e left most w =
    rounds most (left w.outside) + 2 * (length (items e w.writer_buffer) - w.writer_index) + 2

get_elem?-length :
    {A : Type 0} (xs : List A) (i : ℕ) (x : A) → get_elem? xs i ≡ some x → i < length xs
get_elem?-length [] i x h = absurd cc
get_elem?-length (y ∷ xs) zero x h = omega arith
get_elem?-length (y ∷ xs) (suc i) x h = omega (arith, get_elem?-length xs i x h)

module _ {S : Type 0} (e : Env S) (left : S → ℕ) (most : ℕ) (f : Fills e left)
    (t : Ends e left most) (cb : ℕ) where
  abbrev rank : Jump S → ℕ
  rank (return w) = 0
  rank (after_callback w) = 1
  rank (done w) = rounds most (left w.outside) + 1
  rank (send_again w) =
      rounds most (left w.outside) + 2 * (length (items e w.writer_buffer) - w.writer_index) + 1
  rank (next_buf w) =
      rounds most (left w.outside) + 2 * (length (items e w.writer_buffer) - w.writer_index) + 2

  -- The element that is sent is one of the array.
  abbrev Inside : Jump S → Type 0
  Inside (send_again w) = w.writer_index < length (items e w.writer_buffer)
  Inside _ = Unit {0}

  abbrev Less : ℕ → Jump S → Type 0
  Less = Below Inside rank

  next_at-Less :
      (i : Option Item) (w : World S)
      → current e w ≡ i
      → Less (rank (next_buf w)) (next_at e cb i w)
  unfolding next_at
  next_at-Less none w c = (tt, omega arith)
  next_at-Less (some not_ref) w c = (tt, omega arith)
  next_at-Less (some (scalar b)) w c =
      let inside = get_elem?-length (items e w.writer_buffer) w.writer_index (scalar b) c in
      if_rule (Less (rank (next_buf w))) (has_more w.writer_offset b) (inside, omega arith)
        (tt, omega (arith, inside))

  after_send-Less :
      (x : Sent) (n : ℕ) (w : World S)
      → 0 < n
      → (x ≡ write_again → w.write.ready ≡ false)
      → ((k : ℕ)
          → x ≡ accepted (suc k)
          → rounds most (left w.outside)
              + 2 * (length (items e w.writer_buffer) - (w.writer_index + 1))
              + 2
            < n)
      → Less n (after_send e cb x w)
  unfolding after_send retry_write
  after_send-Less write_failed n w p again less = (tt, p)
  after_send-Less (accepted zero) n w p again less = (tt, p)
  after_send-Less write_again n w p again less =
      if_rule (Less n) (e.handle_write_event w.outside).0 (rw (again refl) (tt, p)) (tt, p)
  after_send-Less (accepted (suc k)) n w p again less =
      if_rule (Less n) (has_more (to_int (w.writer_offset + suc k)) (item_bytes e (current e w)))
        (tt, p) (tt, less k refl)

  send_block-Less :
      (w : World S) → Inside (send_again w) → Less (rank (send_again w)) (send_block e cb w)
  unfolding send_block
  send_block-Less w i =
      let b : List ℕ = text_from e w.writer_offset (item_bytes e (current e w)) in
      after_send-Less (e.send w.outside b).0 (rank (send_again w)) _ (omega arith)
        (f.waits w.outside b)
        (λ k h. omega (
          arith,
          i,
          rounds-less most (left (e.send w.outside b).2) (left w.outside) (f.less w.outside b k h),
        ))

  -- A sub that was called with an empty buffer and has filled it has used up some of `left`.
  abbrev Tired : World S → World S → Type 0
  Tired w v =
      is_ref v.writer_buffer ≡ true
      → (left v.outside < left w.outside) × (length (items e v.writer_buffer) ≤ most)

  callback-Tired : (w : World S) → is_ref w.writer_buffer ≡ false → Tired w (callback e cb false w)
  unfolding call_perl
  callback-Tired w h =
      callback_rule e (Tired w) cb false w (λ s. t.sub cb (push_args cb s w) h)
        (λ k. t.native k w h) (λ y. absurd cc)

  after_done-Less :
      (n : ℕ) (w v : World S)
      → Tired w v
      → rounds most (left w.outside) < n
      → Less n (after_done e cb v)
  unfolding after_done
  after_done-Less n w v tired h =
      let L : Jump S → Type 0 = Less n in
      if_rule L v.destroyed (tt, omega arith)
        (if_rule L (is_dummy v.write.handler) (tt, omega arith)
          (if_cases L (is_ref v.writer_buffer)
            (λ y.
              if_rule L v.write.ready
                (
                  tt,
                  omega (
                    arith,
                    (tired y).1,
                    rounds-less most (left v.outside) (left w.outside) (tired y).0,
                  ),
                )
                (tt, omega arith))
            (λ y. (tt, omega arith))))

  done_block-Less : (w : World S) → Less (rank (done w)) (done_block e cb w)
  unfolding done_block
  done_block-Less w =
      let w' : World S = record w { writer_buffer = undef } in
      after_done-Less (rank (done w)) w' (callback e cb false w') (callback-Tired w' refl)
        (omega arith)

  bounded : IsBounded Inside rank (labels e cb)
  unfolding next_block
  bounded = record {
    next_buf_at = λ w p. next_at-Less (current e w) w refl;
    send_again_at = λ w p. send_block-Less w p;
    done_at = λ w p. done_block-Less w;
    after_callback_at = λ w p. (tt, omega arith);
  }

  enter-Less : (n : ℕ) (w : World S) → enough e left most w ≤ n → Less (suc n) (enter e cb w)
  unfolding enter
  enter-Less n w h =
      if_rule (Less (suc n)) w.write.timedout (tt, omega arith) (tt, omega (arith, h))

  -- On a reference to an array the handler returns, within two rounds for each element that is left
  -- and those for as many arrays as the subs still have.
  pub array_returns :
      (fuel : ℕ) (w : World S)
      → enough e left most w ≤ fuel
      → is_some (drive fuel (labels e cb) (enter e cb w)) ≡ true
  array_returns fuel w h =
      drive_returns Inside rank (labels e cb) bounded fuel (enter e cb w) (enter-Less fuel w h)
