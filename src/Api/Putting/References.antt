-- ===== src/Api/Putting/References.antt =====
-- ngxe_writer_buffer_set of a reference to a scalar or to an array.
use nginx_engine.Base.{
  ℕ, ◌+◌, ◌*◌, ◌≤◌, ◌<◌, Bool, true, some, List, [], ◌∷◌, ◌++◌, length, ◌≡◌, refl, sym, ap, ◌∙◌,
  inl, inr, arith,
}
use mathlib.Core.Path.{subst}
use nginx_engine.State.{World, Env, Item, scalar, not_ref, scalar_ref, array_ref, connection}
use nginx_engine.Writer.{dispatch}
use nginx_engine.Writer.Delivery.{scalar_delivers, array_delivers}
use nginx_engine.Writer.Returns.Rules.{Fills}
use nginx_engine.Writer.Returns.Array.{Ends, rounds, rounds_mono, enough}
use nginx_engine.Writer.Offset.{int_limit}
use nginx_engine.Writer.Array.{items}
use nginx_engine.Writer.Stream.Rules.{
  view, concat, remaining, Underway, Settled, Refills, SendsPart,
}
use nginx_engine.Writer.Stream.Scalar.{IsScalar}
use nginx_engine.Writer.Stream.Array.{IsArray, AreShort}
use nginx_engine.Api.{Globals, returned, returning, touch}
use nginx_engine.Api.Writer.{fill, put_data, writer_buffer_set}
use nginx_engine.Api.Putting.{IsWritable, writer_start-Delivers, writer_buffer_set-put_data}

-- The whole of an array is left at its first byte.
remaining_all : (l : List Item) → remaining l 0 0 ≡ concat l
remaining_all [] = refl
remaining_all (scalar b ∷ l) = refl
remaining_all (not_ref ∷ l) = refl

module _ {S : Type 0} (e : Env S) (left : S → ℕ) (f : Fills e left) (cb : ℕ)
    (room : (s : S) → left (e.handle_write_event s).1 ≤ left s) (g : Globals) (fuel : ℕ)
    (is_pv : Bool) where
  -- A call of ngxe_writer_buffer_set (or ngxe_writer_put) with a reference to a scalar, with the library
  -- initialised, on a session that can write and where all that was queued was sent, returns, on any
  -- fuel of at least three rounds for each time that the socket still takes bytes, and two more. Then the
  -- bytes sent followed by those behind the offset are what was queued, for this scalar or for a
  -- new buffer, or the connection is destroyed. This asks that the event system makes no room in the
  -- socket, that it is full at some time, that send() takes no more bytes than it is given, that each
  -- scalar has fewer than 2 to the 31 bytes, and that the subs keep to the stream when all is sent.
  pub put_scalar_delivers :
      Refills IsScalar e
      → SendsPart e
      → (b : List ℕ) (w : World S) → length b < int_limit
      → g.initialized ≡ true
      → w.has_pool ≡ true
      → IsWritable cb w
      → w.sent ≡ w.queued
      → 3 * left w.outside + 2 ≤ fuel
      → (w' : World S) × (writer_buffer_set e g fuel connection is_pv (scalar_ref b) w
          ≡ some (returned w'))
        × Settled (view w')
  unfolding put_data dispatch
  put_scalar_delivers refills part b w short i p h drained rounds =
      let filled : World S = record (fill e (scalar_ref b) (touch w)) { writer_offset = 0 } in
      let underway : Underway (view filled) = ap (λ l. l ++ b) drained in
      let (w', same, settled) =
        writer_start-Delivers e cb Settled (λ v d. inl d) fuel (scalar_ref b) filled
          (record { session = h.session; callback = h.callback; output = h.output }) refl
          (inr (inl underway))
          (λ v q o.
            scalar_delivers e left f cb refills part fuel v
              (omega (arith, rounds, room w.outside, ap left o)) (subst Underway (sym q) underway)
              (b, ap (λ u. u.buffer) q, short) (inl (ap (λ u. u.offset) q))) in
      (
        w',
        writer_buffer_set-put_data e cb g fuel is_pv (scalar_ref b) w i p h ∙ ap returning same,
        settled,
      )

  -- The same with a reference to an array, on any fuel of at least two rounds for each of its
  -- elements and those for as many arrays, of at most `most` elements, as the subs still have: the
  -- bytes sent followed by those behind the position (the offset in the element of the index, and
  -- the elements behind) are what was queued, for this array or for a new buffer, or the connection
  -- is destroyed. The arrays have fewer than 2 to the 31 elements and no holes.
  pub put_array_delivers :
      (most : ℕ)
      → Ends e left most
      → Refills IsArray e
      → SendsPart e
      → (l : List Item) (w : World S) → length l < int_limit
      → AreShort l
      → g.initialized ≡ true
      → w.has_pool ≡ true
      → IsWritable cb w
      → w.sent ≡ w.queued
      → rounds most (left w.outside) + 2 * length l + 2 ≤ fuel
      → (w' : World S) × (writer_buffer_set e g fuel connection is_pv (array_ref l) w
          ≡ some (returned w'))
        × Settled (view w')
  unfolding put_data dispatch
  put_array_delivers most t refills part l w count short i p h drained bound =
      let filled : World S = record (fill e (array_ref l) (touch w)) {
        writer_offset = 0;
        writer_index = 0;
      } in
      let underway : Underway (view filled) =
        ap (λ x. w.sent ++ x) (remaining_all l) ∙ ap (λ x. x ++ concat l) drained in
      let (w', same, settled) =
        writer_start-Delivers e cb Settled (λ v d. inl d) fuel (array_ref l) filled
          (record { session = h.session; callback = h.callback; output = h.output }) refl
          (inr (inl underway))
          (λ v q o.
            array_delivers e left f cb most t refills part fuel v
              (enough_left v (ap (λ u. u.buffer) q) (ap (λ u. u.index) q) o)
              (subst Underway (sym q) underway) (l, ap (λ u. u.buffer) q, count, short)
              (omega (arith, ap (λ u. u.offset) q))) in
      (
        w',
        writer_buffer_set-put_data e cb g fuel is_pv (array_ref l) w i p h ∙ ap returning same,
        settled,
      )
    where
      enough_left :
          (v : World S)
          → v.writer_buffer ≡ array_ref l
          → v.writer_index ≡ 0
          → v.outside ≡ (e.handle_write_event w.outside).1
          → enough e left most v ≤ fuel
      enough_left v same first o = omega (
        arith,
        bound,
        first,
        ap (λ b. length (items e b)) same,
        ap (λ x. rounds most (left x)) o,
        rounds_mono most (left (e.handle_write_event w.outside).1) (left w.outside)
            (room w.outside),
      )
