-- ===== src/Life/Echo/Events.antt =====
-- The events of a connection, one after the other.
use nginx_engine.Base.{ℕ, ◌+◌, ◌*◌, ◌≤◌, if◌then◌else◌, Option, none, some, List, [], ◌∷◌}
use nginx_engine.State.{World, Env, Event}
use nginx_engine.Client.{Side}
use nginx_engine.Writer.Termination.{writer_rounds}
use nginx_engine.Life.{deliver, arrive, handler_of}

-- What nginx tells a connection: an event on a side, arrivals it left that event and what it keeps itself.
pub record Arrival (S : Type 0) : Type 0 where
  pub side : Side
  pub event : Event
  pub outside : S

-- The next event is handled where the handler of this one has returned.
abbrev pub and_then :
    {S : Type 0} → Option (World S) → (World S → Option (World S)) → Option (World S)
and_then none next = none
and_then (some w) next = next w

module _ {S : Type 0} (e : Env S) where
  -- The events in their order. nginx has none for a connection that is destroyed.
  unfoldable pub serve : ℕ → ℕ → List (Arrival S) → World S → Option (World S)
  unfolding deliver
  serve limit fuel [] w = some w
  serve limit fuel (a ∷ arrivals) w =
      if w.destroyed
      then some w
      else and_then
          (deliver e limit fuel a.side (handler_of a.side w) (arrive a.side a.event a.outside w))
          (serve limit fuel arrivals)

-- The fuel is enough for what an event finds.
abbrev pub IsFuelled : {S : Type 0} → (S → ℕ) → (S → ℕ) → ℕ → ℕ → ℕ → List (Arrival S) → Type 0
IsFuelled left pending most limit fuel [] = Unit {0}
IsFuelled left pending most limit fuel (a ∷ l) =
    ((writer_rounds most (left a.outside) ≤ limit)
      × (writer_rounds most (left a.outside) ≤ fuel)
      × (2 * pending a.outside + 1 ≤ fuel))
    × IsFuelled left pending most limit fuel l
