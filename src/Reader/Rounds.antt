-- ===== src/Reader/Rounds.antt =====
-- How many rounds ngxe_reader_handler makes at most.
use nginx_engine.Base.{
  ℕ, ◌+◌, ◌-◌, ◌*◌, ◌≤◌, ◌<◌, false, not, ◌&&◌, is_some, List, [], ◌∷◌, ◌++◌, length, length-append,
  ◌≡◌, refl, arith, if_rule,
}
use nginx_engine.State.{Pv, World, Env, Received, data_read, read_again, read_failed}
use nginx_engine.Callback.{callback, call_perl, push_args}
use nginx_engine.Callback.Rule.{callback_rule}
use nginx_engine.Connection.{is_dummy, add_read_timer}
use nginx_engine.Writer.Returns.Rules.{Fills}
use nginx_engine.Writer.Returns.Array.{Ends, HasAtMost}
use nginx_engine.Reader.{
  Jump, return, recv_again, run_callback, start_writer, wants_more, has_output, wait_read,
  check_min_len, after_recv, receive, recv_block, grow_if_full, after_callback, callback_block,
}
use nginx_engine.Reader.Room.{ReadLaws, Fits, recv_block_reads}

-- What Perl subs and native handlers do not do: make more to read or to write than there was, make
-- the read buffer too small for its string, put in too large an array. The first argument is what
-- they are given, the second what they leave.
pub record IsModest {S : Type 0} (e : Env S) (left pending : S → ℕ) (most : ℕ) (v w : World S)
    : Type 0 where
  pub no_more : pending w.outside ≤ pending v.outside
  pub fits : Fits v.reader_buffer → Fits w.reader_buffer
  pub items_bounded : HasAtMost e most v.writer_buffer → HasAtMost e most w.writer_buffer

-- `pending` bounds how often there is still something to read during the run of a handler, and
-- neither reading nor ngx_handle_read_event makes room to write.
pub record Drains {S : Type 0} (e : Env S) (left pending : S → ℕ) (most : ℕ) : Type 0 where
  pub less :
      (s : S) (n x : ℕ) (xs : List ℕ)
      → (e.recv s n).0 ≡ data_read (x ∷ xs)
      → pending (e.recv s n).2 < pending s
  pub recv_left : (s : S) (n : ℕ) → left (e.recv s n).2 ≤ left s
  pub event : (s : S) → pending (e.handle_read_event s).1 ≤ pending s
  pub event_left : (s : S) → left (e.handle_read_event s).1 ≤ left s
  pub sub : (k : ℕ) (w : World S) → IsModest e left pending most w (e.call_sv k w)
  pub native : (f : ℕ) (w : World S) → IsModest e left pending most w (e.call_native f w)

module _ {S : Type 0} (e : Env S) (left pending : S → ℕ) (most : ℕ) where
  -- What is kept at the labels, where `bound` is the first value of `left`.
  pub record IsFine (bound : ℕ) (w : World S) : Type 0 where
    pub fits : Fits w.reader_buffer
    pub items_bounded : HasAtMost e most w.writer_buffer
    pub left_bounded : left w.outside ≤ bound

  abbrev pub rank : Jump S → ℕ
  rank (return w) = 0
  rank (start_writer w) = 0
  rank (recv_again w) = 2 * pending w.outside + 1
  rank (run_callback w) = 2 * pending w.outside + 2

  abbrev pub Good : ℕ → Jump S → Type 0
  Good bound (return w) = Unit {0}
  Good bound (start_writer w) = IsFine bound w
  Good bound (recv_again w) = IsFine bound w
  Good bound (run_callback w) = IsFine bound w

  abbrev pub Less : ℕ → ℕ → Jump S → Type 0
  Less bound n j = Good bound j × (rank j < n)

  module _ (l : ReadLaws e) (f : Fills e left) (t : Ends e left most)
      (d : Drains e left pending most) (bound cb : ℕ) where
    wait_read-Less :
        (n : ℕ) (w : World S)
        → IsFine bound w
        → 2 * pending w.outside + 1 < n
        → Less bound n (wait_read e cb w)
    unfolding wait_read
    wait_read-Less n w i h =
        if_rule (Less bound n) (e.handle_read_event w.outside).0
          (if_rule (Less bound n) w.read.ready
            (
              record {
                fits = i.fits;
                items_bounded = i.items_bounded;
                left_bounded = omega (arith, i.left_bounded, d.event_left w.outside);
              },
              omega (arith, d.event w.outside),
            )
            (tt, omega arith))
          (tt, omega arith)

    check_min_len-Less :
        (n : ℕ) (w : World S)
        → IsFine bound w
        → 2 * pending w.outside + 2 < n
        → Less bound n (check_min_len e cb w)
    unfolding check_min_len
    check_min_len-Less n w i h =
        if_rule (Less bound n) (wants_more (w.callbacks cb).min_len w.reader_buffer)
          (wait_read-Less n w i (omega arith)) (i, h)

    after_recv-Less :
        (x : Received) (n : ℕ) (w : World S)
        → 0 < n
        → HasAtMost e most w.writer_buffer
        → left w.outside ≤ bound
        → ((y : ℕ) (ys : List ℕ)
            → x ≡ data_read (y ∷ ys)
            → (2 * pending w.outside + 2 < n)
              × (length w.reader_buffer.bytes + length (y ∷ ys) + 1 ≤ w.reader_buffer.len))
        → Less bound n (after_recv e cb x w)
    unfolding after_recv
    after_recv-Less read_failed n w p b k h = (tt, p)
    after_recv-Less read_again n w p b k h = (tt, p)
    after_recv-Less (data_read []) n w p b k h = (tt, p)
    after_recv-Less (data_read (y ∷ ys)) n w p b k h =
        let v : World S = record w {
          reader_buffer = record w.reader_buffer { bytes = w.reader_buffer.bytes ++ y ∷ ys };
          received = w.received ++ y ∷ ys;
          outside = (e.handle_read_event w.outside).1;
        } in
        if_rule (Less bound n) (e.handle_read_event w.outside).0
          (check_min_len-Less n (add_read_timer e v)
            (record {
              fits = omega (arith, (h y ys refl).1, length-append w.reader_buffer.bytes (y ∷ ys));
              items_bounded = b;
              left_bounded = omega (arith, k, d.event_left w.outside);
            })
            (omega (arith, (h y ys refl).0, d.event w.outside)))
          (tt, p)

    pub recv_block-Less :
        (w : World S) → IsFine bound w → Less bound (rank (recv_again w)) (recv_block e cb w)
    unfolding receive
    recv_block-Less w i =
        let b : Pv = grow_if_full e w.reader_buffer in
        let s : S = w.outside in
        let n : ℕ = b.len - length b.bytes - 1 in
        let q = recv_block_reads e l cb w i.fits in
        rw q.1 (
          after_recv-Less (e.recv s n).0 (rank (recv_again w))
            (receive e (record w { reader_buffer = b })).1 (omega arith) i.items_bounded
            (omega (arith, i.left_bounded, d.recv_left s n))
            (λ y ys h. (
              omega (arith, d.less s n y ys h),
              omega (arith, l.recv_bounded s n (y ∷ ys) h, q.0),
            )))

    after_callback-Less :
        (n : ℕ) (w : World S)
        → IsFine bound w
        → 2 * pending w.outside + 1 < n
        → Less bound n (after_callback e cb w)
    unfolding after_callback
    after_callback-Less n w i h =
        if_rule (Less bound n) w.destroyed (tt, omega arith)
          (if_rule (Less bound n) (is_dummy w.read.handler) (tt, omega arith)
            (if_rule (Less bound n) (not (is_dummy w.write.handler)) (tt, omega arith)
              (if_rule (Less bound n)
                (is_some w.writer_callback && w.has_writer_buffer && has_output w.writer_buffer)
                (
                  record {
                    fits = i.fits;
                    items_bounded = i.items_bounded;
                    left_bounded = i.left_bounded;
                  },
                  omega arith,
                )
                (wait_read-Less n w i h))))

    -- Along a call of the sub.
    abbrev Called : World S → World S → Type 0
    Called v w = IsModest e left pending most v w × (left w.outside ≤ left v.outside)

    callback-Called : (w : World S) → Called w (callback e cb false w)
    unfolding call_perl
    callback-Called w =
        callback_rule e (Called w) cb false w
          (λ s.
            let m = d.sub cb (push_args cb s w) in
            (
              record { no_more = m.no_more; fits = m.fits; items_bounded = m.items_bounded },
              f.sub cb (push_args cb s w),
            ))
          (λ k. (d.native k w, f.native k w))
          (record { no_more = omega arith; fits = λ x. x; items_bounded = λ x. x }, omega arith)

    pub callback_block-Less :
        (w : World S) → IsFine bound w → Less bound (rank (run_callback w)) (callback_block e cb w)
    unfolding callback_block
    callback_block-Less w i =
        let (m, k) = callback-Called w in
        after_callback-Less (rank (run_callback w)) (callback e cb false w)
          (record {
            fits = m.fits i.fits;
            items_bounded = m.items_bounded i.items_bounded;
            left_bounded = omega (arith, k, i.left_bounded);
          })
          (omega (arith, m.no_more))
