-- ===== src/Writer/Stream/Array.antt =====
-- ngxe_rvpvav_writer_handler: the bytes of the scalars of an array go out in order, each once.
use mathlib.Core.Path.{subst}
use nginx_engine.Base.{
  ℕ, zero, suc, ◌+◌, true, false, Option, none, some, List, [], ◌∷◌, ◌++◌, append-nil, append_assoc,
  take, drop, drop_all, take-append-drop_from, length, length-drop, if◌then◌else◌, ◌<◌, get_elem?,
  ltb, ◌≡◌, refl, sym, ap, ◌∙◌, ◌⊎◌, inl, inr, if_rule, if_cases, arith,
}
use nginx_engine.State.{
  Buffer, undef, array_ref, Item, scalar, not_ref, World, Env, Sent, accepted, write_again,
  write_failed,
}
use nginx_engine.Callback.{callback}
use nginx_engine.Connection.{is_dummy, del_timer}
use nginx_engine.Writer.Blocks.{
  Jump, return, next_buf, send_again, done, after_callback, drive, wait_write,
}
use nginx_engine.Writer.Drive.{KeepsLabels, drive_inv}
use nginx_engine.Writer.Offset.{int_limit, text_from, text_from-drop, has_more-ltb, to_int_small}
use nginx_engine.Writer.Scalar.{is_ref, reset_offset}
use nginx_engine.Writer.Array.{
  items, item_bytes, current, next_item, reset_position, next_at, next_block, after_send,
  send_block, done_block, after_done, enter, labels,
}
use nginx_engine.Writer.Stream.Rules.{
  View, view, concat, content, remaining, unsent, Underway, Settled, Refilled, Refills, IsPart,
  SendsPart, callback-Refilled, fail_rule, time_out_rule, wait_write_rule, retry_write_rule,
  restart_reader_rule,
}

-- Scalars whose lengths an `int` can hold.
abbrev pub AreShort : List Item → Type 0
AreShort [] = Unit {0}
AreShort (scalar b ∷ l) = (length b < int_limit) × AreShort l
AreShort (not_ref ∷ l) = AreShort l

AreShort-get_elem? :
    (l : List Item) (i : ℕ) (b : List ℕ)
    → AreShort l
    → get_elem? l i ≡ some (scalar b)
    → length b < int_limit
AreShort-get_elem? [] i b s h = absurd cc
AreShort-get_elem? (scalar c ∷ l) zero b s h =
    let same : c ≡ b = cc in omega (arith, s.0, ap length same)
AreShort-get_elem? (not_ref ∷ l) zero b s h = absurd cc
AreShort-get_elem? (scalar c ∷ l) (suc i) b s h = AreShort-get_elem? l i b s.1 h
AreShort-get_elem? (not_ref ∷ l) (suc i) b s h = AreShort-get_elem? l i b s h

-- A reference to an array of such scalars, which are no more than an `int` can number.
abbrev pub IsArrayRef : Buffer → Type 0
IsArrayRef b = (l : List Item) × (b ≡ array_ref l) × (length l < int_limit) × AreShort l

-- An array to be written, or no reference at all.
abbrev pub IsArray : Buffer → ℕ → Type 0
IsArray b o = (is_ref b ≡ false) ⊎ IsArrayRef b

dead : (v : View) → v.destroyed ≡ true → Settled v
dead v h = inl h

remaining_zero : (l : List Item) → remaining l 0 0 ≡ concat l
remaining_zero [] = refl
remaining_zero (scalar b ∷ l) = refl
remaining_zero (not_ref ∷ l) = refl

remaining-none : (l : List Item) (i o : ℕ) → get_elem? l i ≡ none → remaining l i o ≡ []
remaining-none [] i o h = refl
remaining-none (scalar b ∷ l) zero o h = cc
remaining-none (not_ref ∷ l) zero o h = cc
remaining-none (scalar b ∷ l) (suc i) o h = remaining-none l i o h
remaining-none (not_ref ∷ l) (suc i) o h = remaining-none l i o h

-- Behind the rest of an element come the elements after it.
remaining-scalar :
    (l : List Item) (i o : ℕ) (b : List ℕ)
    → get_elem? l i ≡ some (scalar b)
    → remaining l i o ≡ drop o b ++ remaining l (suc i) 0
remaining-scalar [] i o b h = cc
remaining-scalar (not_ref ∷ l) zero o b h = cc
remaining-scalar (scalar c ∷ l) zero o b h = let e : c ≡ b = cc in rw (e, remaining_zero l) refl
remaining-scalar (scalar c ∷ l) (suc i) o b h = remaining-scalar l i o b h
remaining-scalar (not_ref ∷ l) (suc i) o b h = remaining-scalar l i o b h

regroup : (s t d r : List ℕ) → (s ++ t) ++ (d ++ r) ≡ s ++ ((t ++ d) ++ r)
regroup s t d r = simp append_assoc

ref_of : (b : Buffer) → is_ref b ≡ true → (is_ref b ≡ false) ⊎ IsArrayRef b → IsArrayRef b
ref_of b t (inl h) = absurd (ground arith)
ref_of b t (inr k) = k

module _ {S : Type 0} (e : Env S) where
  unsent-items : (b : Buffer) (o i : ℕ) → IsArrayRef b → unsent b o i ≡ remaining (items e b) i o
  unsent-items b o i (l, h, n, s) = rw h refl

  content-items : (b : Buffer) → IsArrayRef b → unsent b 0 0 ≡ content b
  content-items b (l, h, n, s) = rw h (remaining_zero l)

  -- The element at the writer's index is a scalar.
  abbrev AtScalar : World S → Type 0
  AtScalar w = (b : List ℕ) × (current e w ≡ some (scalar b))

  unsent-current :
      (w : World S) (o : ℕ)
      → IsArrayRef w.writer_buffer
      → AtScalar w
      → unsent w.writer_buffer o w.writer_index
        ≡ drop o (item_bytes e (current e w))
          ++ remaining (items e w.writer_buffer) (suc w.writer_index) 0
  unsent-current w o k (b, h) =
      unsent-items w.writer_buffer o w.writer_index k
      ∙ remaining-scalar (items e w.writer_buffer) w.writer_index o b h
      ∙ ap
          (λ c.
            drop o (item_bytes e c) ++ remaining (items e w.writer_buffer) (suc w.writer_index) 0)
          (sym h)

  short_current :
      (w : World S)
      → IsArrayRef w.writer_buffer
      → (b : List ℕ) → current e w ≡ some (scalar b)
      → length b < int_limit
  short_current w (l, h, n, s) b c =
      AreShort-get_elem? l w.writer_index b s
        (sym (ap (λ x. get_elem? (items e x) w.writer_index) h) ∙ c)

  -- The writer is inside of an element that is a scalar.
  abbrev Inside : World S → Type 0
  Inside w = (b : List ℕ) × (current e w ≡ some (scalar b)) × (w.writer_offset < length b)

  abbrev P : Jump S → Type 0
  P (return w) = Settled (view w)
  P (next_buf w) = Underway (view w) × IsArrayRef w.writer_buffer × (w.writer_offset < int_limit)
  P (send_again w) = Underway (view w) × IsArrayRef w.writer_buffer × Inside w
  P (done w) = w.sent ≡ w.queued
  P (after_callback w) = Settled (view w)

  -- The handler goes on with the next element, when nothing of this one is left.
  next_item-P :
      (w : World S)
      → IsArrayRef w.writer_buffer
      → w.sent ++ remaining (items e w.writer_buffer) (suc w.writer_index) 0 ≡ w.queued
      → P (next_buf (next_item w))
  next_item-P w k h = (
    ap (λ t. w.sent ++ t)
          (ap (λ i. unsent w.writer_buffer 0 i) (omega arith)
            ∙ unsent-items w.writer_buffer 0 (suc w.writer_index) k)
        ∙ h,
    k,
    omega arith,
  )

  module _ (r : Refills IsArray e) (part_sent : SendsPart e) (cb : ℕ) where
    next_at-P :
        (i : Option Item) (w : World S)
        → current e w ≡ i
        → Underway (view w)
        → IsArrayRef w.writer_buffer
        → w.writer_offset < int_limit
        → P (next_at e cb i w)
    unfolding next_at
    next_at-P none w c u k o =
        sym (append-nil w.sent)
        ∙ ap (λ t. w.sent ++ t)
            (sym (
              unsent-items w.writer_buffer w.writer_offset w.writer_index k
              ∙ remaining-none (items e w.writer_buffer) w.writer_index w.writer_offset c))
        ∙ u
    next_at-P (some not_ref) w c u k o = fail_rule e Settled dead cb _ _
    next_at-P (some (scalar b)) w c u k o = rw (has_more-ltb w.writer_offset b o) (
        if_cases P (ltb w.writer_offset (length b)) (λ t. (u, k, (b, c, ground arith)))
          (λ t. next_item-P w k (
            ap (λ t. w.sent ++ t)
              (sym (
                unsent-items w.writer_buffer w.writer_offset w.writer_index k
                ∙ remaining-scalar (items e w.writer_buffer) w.writer_index w.writer_offset b c
                ∙ ap (λ d. d ++ remaining (items e w.writer_buffer) (suc w.writer_index) 0)
                    (drop_all w.writer_offset b (ground arith))))
            ∙ u)))

    -- Some bytes went out, and the offset has not wrapped around.
    moves :
        (n : ℕ) (w : World S)
        → Underway (view w)
        → IsArrayRef w.writer_buffer
        → AtScalar w
        → let v = record w {
          writer_offset = w.writer_offset + suc n;
          sent = w.sent ++ take (suc n) (drop w.writer_offset (item_bytes e (current e w)));
          write = del_timer w.write;
        } in
          P (
            if ltb (w.writer_offset + suc n) (length (item_bytes e (current e w)))
            then return (
                wait_write e cb reset_offset
                  (record v { write = record v.write { ready = false } }))
            else next_buf (next_item v))
    moves n w u k a =
        let b : List ℕ = item_bytes e (current e w) in
        let o : ℕ = w.writer_offset in
        let rest : List ℕ = remaining (items e w.writer_buffer) (suc w.writer_index) 0 in
        let v : World S = record w {
          writer_offset = o + suc n;
          sent = w.sent ++ take (suc n) (drop o b);
          write = del_timer w.write;
        } in
        let split : v.sent ++ (drop (o + suc n) b ++ rest) ≡ w.queued =
          regroup w.sent (take (suc n) (drop o b)) (drop (o + suc n) b) rest
          ∙ ap (λ t. w.sent ++ (t ++ rest)) (take-append-drop_from o (suc n) b)
          ∙ ap (λ t. w.sent ++ t) (sym (unsent-current w o k a))
          ∙ u in
        if_cases P (ltb (o + suc n) (length b))
          (λ more.
            wait_write_rule e Settled dead cb reset_offset
              (record v { write = record v.write { ready = false } })
              (inr (inl (ap (λ t. v.sent ++ t) (unsent-current w (o + suc n) k a) ∙ split))))
          (λ all.
            next_item-P v k (
              ap (λ t. v.sent ++ (t ++ rest)) (sym (drop_all (o + suc n) b (ground arith)))
              ∙ split))

    after_send-P :
        (n : Sent) (w : World S)
        → Underway (view w)
        → IsArrayRef w.writer_buffer
        → Inside w
        → IsPart n (text_from e w.writer_offset (item_bytes e (current e w)))
        → P (after_send e cb n w)
    unfolding after_send
    after_send-P write_failed w u k a part = fail_rule e Settled dead cb _ _
    after_send-P (accepted zero) w u k a part = fail_rule e Settled dead cb _ _
    after_send-P write_again w u k a part =
        retry_write_rule e P cb reset_offset w
          (λ v q.
            subst
              (λ (x : View).
                Underway x
                × IsArrayRef x.buffer
                × ((b : List ℕ) × (get_elem? (items e x.buffer) x.index ≡ some (scalar b))
                    × (x.offset < length b)))
              (sym q) (u, k, a))
          (λ v q. inr (inl (subst Underway (sym q) u))) (λ v. dead (view v))
    after_send-P (accepted (suc n)) w u k (x, c, inside) part =
        let b : List ℕ = item_bytes e (current e w) in
        let o : ℕ = w.writer_offset in
        let short : length b < int_limit = rw c (short_current w k x c) in
        let within : o < length b = rw c inside in
        let all_read : text_from e o b ≡ drop o b =
          text_from-drop e o b (omega (arith, within, short)) in
        let fits : o + suc n < int_limit =
          omega (arith, part, ap length all_read, length-drop o b, within, short) in
        rw (to_int_small (o + suc n) fits, all_read, has_more-ltb (o + suc n) b fits)
          (moves n w u k (x, c))

    after_done-P : (w : World S) → Refilled IsArray (view w) → P (after_done e cb w)
    unfolding after_done
    after_done-P w (inl d) = rw d (inl refl)
    after_done-P w (inr (f, k)) = if_rule P w.destroyed (inr (inr f)) (
        if_rule P (is_dummy w.write.handler) (inr (inr f)) (
          if_cases P (is_ref w.writer_buffer)
            (λ t.
              let k' : IsArrayRef w.writer_buffer = ref_of w.writer_buffer t k in
              let u : Underway (view (reset_position w)) =
                ap (λ t. w.sent ++ t) (content-items w.writer_buffer k') ∙ f in
              if_rule P w.write.ready (u, k', omega arith)
                (wait_write_rule e Settled dead cb reset_offset (reset_position w) (inr (inl u))))
            (λ t. restart_reader_rule e Settled dead cb w (inr (inr f)))))

    keeps : KeepsLabels P (labels e cb)
    unfolding next_block send_block done_block
    keeps = record {
      next_buf_at = λ w p. next_at-P (current e w) w refl p.0 p.1 p.2;
      send_again_at = λ w p.
          after_send-P
            (e.send w.outside (text_from e w.writer_offset (item_bytes e (current e w)))).0 _ p.0
            p.1 p.2
            (part_sent w.outside (text_from e w.writer_offset (item_bytes e (current e w))));
      done_at = λ w p. after_done-P (callback e cb false (record w { writer_buffer = undef })) (
          callback-Refilled e IsArray r cb (record w { writer_buffer = undef })
            (record { all_sent = p; empty = refl; kind = inl refl }));
      after_callback_at = λ w p. p;
    }

    enter-P :
        (w : World S)
        → Underway (view w)
        → IsArrayRef w.writer_buffer
        → w.writer_offset < int_limit
        → P (enter e cb w)
    unfolding enter
    enter-P w u k o = if_rule P w.write.timedout (time_out_rule e Settled dead cb w) (u, k, o)

    -- However often the handler of an array sends, waits or calls the sub: if it starts where what
    -- was sent and what is left behind the position are what Perl subs have queued, then so it is
    -- when it returns, for the rest of an array or for a new buffer, or the connection is destroyed.
    pub array_stream :
        (fuel : ℕ) (w w' : World S)
        → Underway (view w)
        → IsArrayRef w.writer_buffer
        → w.writer_offset < int_limit
        → drive fuel (labels e cb) (enter e cb w) ≡ some w'
        → Settled (view w')
    array_stream fuel w w' u k o h =
        drive_inv P (labels e cb) keeps fuel (enter e cb w) (enter-P w u k o) h
