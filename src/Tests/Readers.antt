-- ===== src/Tests/Readers.antt =====
-- The handler of the reader.
use mathlib.Core.Path.{subst}
use nginx_engine.Base.{
  ℕ, ◌+◌, zero, suc, ◌≤◌, ◌<◌, true, Option, some, is_some, List, [], ◌∷◌, take, length, ◌≡◌, refl,
  ap, ◌⊎◌, inl, inr, append-nil, ◌∙◌, arith, ◌-◌,
}
use nginx_engine.State.{World, Env, connection, Received, data_read}
use nginx_engine.Callback.{callback}
use nginx_engine.Connection.Close.{IsCoherent}
use nginx_engine.Connection.Coherence.{KeepCoherent}
use nginx_engine.Reader.{
  reader_event, svgrow_size, grow_if_full, recv_block, callback_block, after_recv, receive,
}
use nginx_engine.Reader.Room.{ReadLaws, svgrow_size_grows, recv_block_reads}
use nginx_engine.Reader.Intact.{IsIntact, Alive, KeepIntact}
use nginx_engine.Reader.Waiting.{Waits, reader_event_waits}
use nginx_engine.Writer.{writer_start}
use nginx_engine.Reader.Rounds.{Drains}
use nginx_engine.Reader.Returns.{reader_event_delivers}
use nginx_engine.Writer.Returns.Rules.{Fills}
use nginx_engine.Writer.Returns.Array.{Ends, rounds}
use nginx_engine.Reader.Coherence.{reader_event-IsCoherent}
use nginx_engine.Tests.{
  send_less, send_waits, env, small_recv, take_all, reading, end_of, some-end_of,
}

abbrev pub system : Env ℕ
system = env take_all

abbrev pub run : Option (World ℕ)
run = reader_event system 9 9 connection (reading 2)

run_consumed : (end_of run).consumed ≡ 65 ∷ 66 ∷ 65 ∷ 66 ∷ []
unfolding reader_event callback recv_block callback_block
run_consumed = refl

pub run_returns : is_some run ≡ true
unfolding reader_event callback recv_block callback_block
run_returns = refl

length-take : (n : ℕ) (xs : List ℕ) → length (take n xs) ≤ n
length-take zero xs = omega arith
length-take (suc n) [] = omega arith
length-take (suc n) (x ∷ xs) = omega (arith, length-take n xs)

abbrev bytes_of : Received → List ℕ
bytes_of (data_read xs) = xs
bytes_of _ = []

pub small_recv_bounded : (s n : ℕ) (xs : List ℕ) → (small_recv s n).0 ≡ data_read xs → length xs ≤ n
small_recv_bounded zero n xs h = absurd cc
small_recv_bounded (suc s) n xs h =
    subst (λ l. length l ≤ n) (ap bytes_of h) (length-take n (65 ∷ 66 ∷ []))

pub system-ReadLaws : ReadLaws system
system-ReadLaws = record { grow_enough = λ len n. ground arith; recv_bounded = small_recv_bounded }

take_all-Alive : (w : World ℕ) → Alive w → Alive (take_all w)
take_all-Alive w (inl h) = inl h
take_all-Alive w (inr i) =
    inr (record { stream = append-nil _ ∙ i.stream; fits = omega (arith, i.fits) })

pub system-KeepIntact : KeepIntact system
system-KeepIntact = record { sub = λ k. take_all-Alive; native = λ f w h. h }

-- What is left of the socket and what is pending are both the number of answers.
abbrev pub left : ℕ → ℕ
left s = s

pub recv_less :
    (s n x : ℕ) (xs : List ℕ) → (small_recv s n).0 ≡ data_read (x ∷ xs) → (small_recv s n).2 < s
recv_less zero n x xs h = absurd cc
recv_less (suc s) n x xs h = omega arith

pub recv_left : (s n : ℕ) → (small_recv s n).2 ≤ s
recv_left zero n = omega arith
recv_left (suc s) n = omega arith

pub system-Fills : Fills system left
system-Fills = record {
  less = send_less;
  waits = send_waits;
  sub = λ k w. omega arith;
  native = λ f w. omega arith;
}

pub system-Ends : Ends system left 0
system-Ends = record { sub = λ k w n y. absurd cc; native = λ f w n y. absurd cc }

pub system-Drains : Drains system left left 0
system-Drains = record {
  less = recv_less;
  recv_left = recv_left;
  event = λ s. omega arith;
  event_left = λ s. omega arith;
  sub =
      λ k w. record { no_more = omega arith; fits = λ h. omega (arith, h); items_bounded = λ h. h };
  native = λ f w. record { no_more = omega arith; fits = λ h. h; items_bounded = λ h. h };
}

reader_event_delivers_example :
    (w : World ℕ) × (reader_event system 20 9 connection (reading 2) ≡ some w)
    × ((w.destroyed ≡ true) ⊎ IsIntact w)
unfolding rounds
reader_event_delivers_example =
    reader_event_delivers system left left 0 system-ReadLaws system-Fills system-Ends system-Drains
      (λ s. omega arith) system-KeepIntact 20 9 (reading 2)
      (record { stream = refl; fits = omega arith }) (λ y. absurd cc) (omega arith) (omega arith)

pub system-KeepCoherent : KeepCoherent system
system-KeepCoherent = record {
  sub = λ k w h. record { pool = h.pool; once = h.once };
  native = λ f w h. h;
}

reader_event-IsCoherent_example : IsCoherent (end_of run)
reader_event-IsCoherent_example =
    reader_event-IsCoherent system system-KeepCoherent 9 9 (reading 2) (end_of run)
      (record { pool = refl; once = refl }) (some-end_of run run_returns)

svgrow_size_grows_example : 40000 < svgrow_size 4096 (40000 + 16384)
svgrow_size_grows_example = svgrow_size_grows 4096 40000

abbrev full : World ℕ
full = record (reading 2) { reader_buffer = record { bytes = 1 ∷ 2 ∷ 3 ∷ []; len = 4 } }

recv_block_reads_example :
    let w = record full { reader_buffer = grow_if_full system full.reader_buffer } in
    (0 < w.reader_buffer.len - length w.reader_buffer.bytes - 1)
    × (recv_block system 0 full ≡ after_recv system 0 (receive system w).0 (receive system w).1)
recv_block_reads_example = recv_block_reads system system-ReadLaws 0 full (omega arith)

reader_event_waits_example :
    Waits (end_of run) ⊎ ((v : World ℕ) × (writer_start system 9 connection v ≡ some (end_of run)))
reader_event_waits_example =
    reader_event_waits system 9 9 0 (reading 2) (end_of run) refl refl refl
      (some-end_of run run_returns)
