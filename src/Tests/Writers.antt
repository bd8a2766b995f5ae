-- ===== src/Tests/Writers.antt =====
-- The handlers of the writer.
use nginx_engine.Base.{
  ℕ, zero, suc, ◌≤◌, ◌<◌, true, false, Option, some, is_some, List, [], ◌∷◌, ◌++◌, length, ◌≡◌,
  refl, ap, inl, inr, arith,
}
use nginx_engine.State.{called, World, string, array_ref, scalar_ref, scalar, connection}
use nginx_engine.Callback.{callback}
use nginx_engine.Connection.Close.{IsCoherent}
use nginx_engine.Connection.Coherence.{KeepCoherent}
use nginx_engine.Writer.{writer_event, writer_start}
use nginx_engine.Writer.Plain
use nginx_engine.Writer.Scalar
use nginx_engine.Writer.Array
use nginx_engine.Writer.Blocks.{drive}
use nginx_engine.Writer.Stream.Rules.{Refills, Refilled, IsDrained, Settled, view, drained-Refilled}
use nginx_engine.Writer.Stream.Plain.{IsPlain, Sound}
use nginx_engine.Writer.Stream.Scalar.{IsScalar}
use nginx_engine.Writer.Stream.Array.{IsArray}
use nginx_engine.Writer.Returns.Rules.{Fills}
use nginx_engine.Writer.Returns.Array.{Ends, enough, rounds}
use nginx_engine.Writer.Delivery.{plain_delivers, scalar_delivers, array_delivers}
use nginx_engine.Writer.Termination.{Enough, writer_event_returns, writer_start_returns}
use nginx_engine.Writer.Scalar.{is_ref}
use nginx_engine.Writer.Array.{items}
use nginx_engine.Writer.Coherence.{writer_event-IsCoherent, writer_start-IsCoherent}
use nginx_engine.Tests.{
  no_error, send_less, send_waits, small_send-IsPart, env, put, writing, end_of, some-end_of,
}

-- Subs that go on writing.
abbrev pub more_text : World ℕ → World ℕ
more_text = put (7 ∷ []) (string (7 ∷ []))

abbrev pub more_scalar : World ℕ → World ℕ
more_scalar = put (7 ∷ []) (scalar_ref (7 ∷ []))

-- As long as there are answers left, each array takes one of them.
abbrev refill : ℕ → World ℕ → World ℕ
refill zero w = w
refill (suc s) w =
    record (put (7 ∷ 8 ∷ []) (array_ref (scalar (7 ∷ []) ∷ scalar [] ∷ scalar (8 ∷ []) ∷ [])) w) {
      outside = s;
    }

abbrev pub more_items : World ℕ → World ℕ
more_items w = refill w.outside w

abbrev pub text : World ℕ
text = writing 3 (1 ∷ 2 ∷ []) (string (1 ∷ 2 ∷ []))

abbrev pub cell : World ℕ
cell = writing 3 (1 ∷ 2 ∷ []) (scalar_ref (1 ∷ 2 ∷ []))

abbrev cells : World ℕ
cells =
    writing 5 (1 ∷ 2 ∷ 3 ∷ []) (array_ref (scalar (1 ∷ 2 ∷ []) ∷ scalar [] ∷ scalar (3 ∷ []) ∷ []))

abbrev pub text_run : Option (World ℕ)
text_run = drive 9 (Plain.labels (env more_text) 1) (Plain.enter (env more_text) 1 text)

abbrev cell_run : Option (World ℕ)
cell_run = drive 12 (Scalar.labels (env more_scalar) 1) (Scalar.enter (env more_scalar) 1 cell)

abbrev cells_run : Option (World ℕ)
cells_run = drive 20 (Array.labels (env more_items) 1) (Array.enter (env more_items) 1 cells)

text_sent : (end_of text_run).sent ≡ 1 ∷ 2 ∷ 7 ∷ 7 ∷ []
unfolding drive Plain.enter Plain.send_block Plain.after_block callback
text_sent = refl

pub text_returns : is_some text_run ≡ true
unfolding drive Plain.enter Plain.send_block Plain.after_block callback
text_returns = refl

cell_sent : (end_of cell_run).sent ≡ 1 ∷ 2 ∷ 7 ∷ 7 ∷ []
unfolding drive Scalar.enter Scalar.send_block Scalar.done_block Scalar.after_block callback
cell_sent = refl

cell_returns : is_some cell_run ≡ true
unfolding drive Scalar.enter Scalar.send_block Scalar.done_block Scalar.after_block callback
cell_returns = refl

cells_sent : (end_of cells_run).sent ≡ 1 ∷ 2 ∷ 3 ∷ 7 ∷ 8 ∷ []
unfolding drive Array.enter Array.next_block Array.send_block Array.done_block callback
cells_sent = refl

cells_returns : is_some cells_run ≡ true
unfolding drive Array.enter Array.next_block Array.send_block Array.done_block callback
cells_returns = refl

-- The theorems on the streams, where the subs queue what they put into the buffer.
put_lem : (w : World ℕ) (bytes : List ℕ) → w.sent ≡ w.queued → w.sent ++ bytes ≡ w.queued ++ bytes
put_lem w bytes h = ap (λ l. l ++ bytes) h

pub text-Refills : Refills (IsPlain (env more_text)) (env more_text)
text-Refills = record {
  sub = λ k w d. inr (put_lem w (7 ∷ []) d.all_sent, refl);
  native = λ f w d. drained-Refilled (IsPlain (env more_text)) (view w) d;
}

pub cell-Refills : Refills IsScalar (env more_scalar)
cell-Refills = record {
  sub = λ k w d. inr (put_lem w (7 ∷ []) d.all_sent, (refl, inr (7 ∷ [], refl, omega arith)));
  native = λ f w d. drained-Refilled IsScalar (view w) d;
}

refill_lem :
    (s : ℕ) (w : World ℕ) → IsDrained IsArray (view w) → Refilled IsArray (view (refill s w))
refill_lem zero w d = drained-Refilled IsArray (view w) d
refill_lem (suc s) w d = inr (
  put_lem w (7 ∷ 8 ∷ []) d.all_sent,
  inr (_, refl, omega arith, (omega arith, (omega arith, (omega arith, tt)))),
)

pub cells-Refills : Refills IsArray (env more_items)
cells-Refills = record {
  sub = λ k w d. refill_lem w.outside w d;
  native = λ f w d. drained-Refilled IsArray (view w) d;
}

-- The socket and the subs of these systems: what is left is the number of answers.
abbrev pub left : ℕ → ℕ
left s = s

pub text-Fills : Fills (env more_text) left
text-Fills = record {
  less = send_less;
  waits = send_waits;
  sub = λ k w. omega arith;
  native = λ f w. omega arith;
}

pub cell-Fills : Fills (env more_scalar) left
cell-Fills = record {
  less = send_less;
  waits = send_waits;
  sub = λ k w. omega arith;
  native = λ f w. omega arith;
}

refill_left : (s : ℕ) (w : World ℕ) → s ≤ w.outside → (refill s w).outside ≤ w.outside
refill_left zero w h = omega arith
refill_left (suc s) w h = omega arith

pub cells-Fills : Fills (env more_items) left
cells-Fills = record {
  less = send_less;
  waits = send_waits;
  sub = λ k w. refill_left w.outside w (omega arith);
  native = λ f w. omega arith;
}

refill-Ends :
    (s : ℕ) (w : World ℕ)
    → s ≤ w.outside
    → is_ref w.writer_buffer ≡ false
    → is_ref (refill s w).writer_buffer ≡ true
    → ((refill s w).outside < w.outside)
      × (length (items (env more_items) (refill s w).writer_buffer) ≤ 3)
refill-Ends zero w h n y = absurd cc
refill-Ends (suc s) w h n y = (omega arith, omega arith)

pub cells-Ends : Ends (env more_items) left 3
cells-Ends = record {
  sub = λ k w. refill-Ends w.outside w (omega arith);
  native = λ f w n y. absurd cc;
}

plain_delivers_example :
    (w : World ℕ) × (drive 9 (Plain.labels (env more_text) 1) (Plain.enter (env more_text) 1 text)
      ≡ some w)
    × Sound (env more_text) (view w)
plain_delivers_example =
    plain_delivers (env more_text) left text-Fills 1 text-Refills 9 text (omega arith) refl refl

scalar_delivers_example :
    (w : World ℕ) × (drive 12
        (Scalar.labels (env more_scalar) 1)
        (Scalar.enter (env more_scalar) 1 cell)
      ≡ some w)
    × Settled (view w)
scalar_delivers_example =
    scalar_delivers (env more_scalar) left cell-Fills 1 cell-Refills small_send-IsPart 12 cell
      (omega arith) refl (1 ∷ 2 ∷ [], refl, omega arith) (inl refl)

cells-enough : enough (env more_items) left 3 cells ≤ 60
unfolding rounds
cells-enough = omega arith

array_delivers_example :
    (w : World ℕ) × (drive 60
        (Array.labels (env more_items) 1)
        (Array.enter (env more_items) 1 cells)
      ≡ some w)
    × Settled (view w)
array_delivers_example =
    array_delivers (env more_items) left cells-Fills 1 3 cells-Ends cells-Refills small_send-IsPart
      60 cells cells-enough refl
      (_, refl, omega arith, (omega arith, (omega arith, (omega arith, tt)))) (omega arith)

cells-Enough : Enough (env more_items) left 3 cells-Fills cells-Ends 80 cells
unfolding rounds
cells-Enough = (omega arith, λ y. omega arith)

writer_event_returns_example : is_some (writer_event (env more_items) 80 connection cells) ≡ true
writer_event_returns_example =
    writer_event_returns (env more_items) left 3 cells-Fills cells-Ends 80 connection cells
      cells-Enough

writer_start_returns_example : is_some (writer_start (env more_items) 80 connection cells) ≡ true
writer_start_returns_example =
    writer_start_returns (env more_items) left 3 cells-Fills cells-Ends 80 (λ s. omega arith)
      connection cells cells-Enough

-- The theorems on the release of the connection.
text-IsCoherent : IsCoherent text
text-IsCoherent = record { pool = refl; once = refl }

text-KeepCoherent : KeepCoherent (env more_text)
text-KeepCoherent = record {
  sub = λ k w h. record { pool = h.pool; once = h.once };
  native = λ f w h. h;
}

abbrev event_run : Option (World ℕ)
event_run = writer_event (env more_text) 9 connection text

abbrev start_run : Option (World ℕ)
start_run = writer_start (env more_text) 9 connection text

event_returns : is_some event_run ≡ true
unfolding writer_event callback Plain.send_block Plain.after_block
event_returns = refl

start_returns : is_some start_run ≡ true
unfolding writer_start callback Plain.send_block Plain.after_block
start_returns = refl

writer_event-IsCoherent_example : IsCoherent (end_of event_run)
writer_event-IsCoherent_example =
    writer_event-IsCoherent (env more_text) text-KeepCoherent 9 connection text (end_of event_run)
      text-IsCoherent (some-end_of event_run event_returns)

start_run-IsCoherent : IsCoherent (end_of start_run)
start_run-IsCoherent =
    writer_start-IsCoherent (env more_text) text-KeepCoherent 9 connection text (end_of start_run)
      text-IsCoherent (some-end_of start_run start_returns)

-- An array that is started at the index where the last one ended: its elements are not sent, and the
-- sub is called as if they were.
abbrev stale : World ℕ
stale = record (writing 5 [] (array_ref (scalar (1 ∷ []) ∷ scalar (2 ∷ []) ∷ []))) {
  writer_index = 2;
}

abbrev stale_run : Option (World ℕ)
stale_run = drive 9 (Array.labels (env (λ w. w)) 1) (Array.enter (env (λ w. w)) 1 stale)

stale_sent : (end_of stale_run).sent ≡ []
unfolding drive Array.enter Array.next_block Array.done_block callback
stale_sent = refl

stale_called : (end_of stale_run).trace ≡ called 1 no_error ∷ []
unfolding drive Array.enter Array.next_block Array.done_block callback
stale_called = refl
