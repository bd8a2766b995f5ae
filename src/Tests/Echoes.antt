-- ===== src/Tests/Echoes.antt =====
-- A connection that sends back what it reads.
use nginx_engine.Base.{
  ℕ, Bool, true, some, List, [], ◌∷◌, ◌++◌, append-nil, ◌≡◌, refl, ap, sym, ◌∙◌, arith, inl, inr,
}
use nginx_engine.State.{World, Env, string}
use nginx_engine.Callback.{callback}
use nginx_engine.Client.{read_side, write_side}
use nginx_engine.Reader.{recv_block, callback_block}
use nginx_engine.Reader.Room.{ReadLaws}
use nginx_engine.Reader.Intact.{Alive, KeepIntact}
use nginx_engine.Reader.Rounds.{Drains}
use nginx_engine.Writer.Plain
use nginx_engine.Writer.Returns.Rules.{Fills}
use nginx_engine.Writer.Returns.Array.{Ends, rounds}
use nginx_engine.Writer.Stream.Rules.{content}
use nginx_engine.Life.Echo.{IsEchoing, Works, Left, KeepEcho}
use nginx_engine.Life.Echo.Events.{Arrival, serve}
use nginx_engine.Life.Echo.Served.{serve_echoes}
use nginx_engine.Tests.{env, reading, idle, end_of, send_less, send_waits}
use nginx_engine.Tests.Readers.{left, small_recv_bounded, recv_less, recv_left}

-- `$_[3] = $_[2]; $_[2] = '';` with the write buffer and the read buffer.
abbrev pub send_back : World ℕ → World ℕ
send_back w = record w {
  writer_buffer = string w.reader_buffer.bytes;
  queued = w.queued ++ w.reader_buffer.bytes;
  consumed = w.consumed ++ w.reader_buffer.bytes;
  reader_buffer = record w.reader_buffer { bytes = [] };
}

-- Every sub is such a sub.
abbrev pub every : ℕ → Bool
every k = true

abbrev pub echo : Env ℕ
echo = env send_back

echo-ReadLaws : ReadLaws echo
echo-ReadLaws = record { grow_enough = λ len n. ground arith; recv_bounded = small_recv_bounded }

echo-Fills : Fills echo left
echo-Fills = record {
  less = send_less;
  waits = send_waits;
  sub = λ k w. omega arith;
  native = λ f w. omega arith;
}

echo-Ends : Ends echo left 0
echo-Ends = record { sub = λ k w n y. absurd cc; native = λ f w n y. absurd cc }

echo-Drains : Drains echo left left 0
echo-Drains = record {
  less = recv_less;
  recv_left = recv_left;
  event = λ s. omega arith;
  event_left = λ s. omega arith;
  sub = λ k w. record {
    no_more = omega arith;
    fits = λ h. omega (arith, h);
    items_bounded = λ h y. absurd cc;
  };
  native = λ f w. record { no_more = omega arith; fits = λ h. h; items_bounded = λ h. h };
}

pub send_back-Alive : (w : World ℕ) → Alive w → Alive (send_back w)
send_back-Alive w (inl h) = inl h
send_back-Alive w (inr i) =
    inr (record { stream = append-nil _ ∙ i.stream; fits = omega (arith, i.fits) })

echo-KeepIntact : KeepIntact echo
echo-KeepIntact = record { sub = λ k. send_back-Alive; native = λ f w h. h }

pub send_back-Left :
    (e : Env ℕ) (mine : ℕ → Bool) (w : World ℕ)
    → IsEchoing e mine w
    → content w.writer_buffer ≡ []
    → Left e mine w (send_back w)
send_back-Left e mine w i h = inr (
  record {
    text = tt;
    echoed =
        ap (λ t. w.sent ++ t)
          (append-nil w.reader_buffer.bytes ∙ sym (ap (λ t. t ++ w.reader_buffer.bytes) h))
        ∙ i.echoed;
    callback = i.callback;
    output = i.output;
    reader_mine = i.reader_mine;
    writer_mine = i.writer_mine;
  },
  refl,
  refl,
)

echo-KeepEcho : KeepEcho echo every
echo-KeepEcho = record {
  sub = λ k w own. send_back-Left echo every w;
  native = λ f w i h. inr (i, refl, refl);
  sub_gone = λ k w h. h;
  native_gone = λ f w h. h;
}

abbrev pub talk : List (Arrival ℕ)
talk =
    record { side = read_side; event = idle; outside = 3 }
    ∷ record { side = write_side; event = record idle { ready = true }; outside = 4 }
    ∷ record { side = read_side; event = idle; outside = 2 }
    ∷ []

abbrev begun : World ℕ
begun = record (reading 0) { writer_buffer = string [] }

talk_sent : (end_of (serve echo 30 30 talk begun)).sent ≡ 65 ∷ 66 ∷ 65 ∷ 66 ∷ []
unfolding serve recv_block callback_block callback Plain.send_block Plain.after_block
talk_sent = refl

serve_echoes_example :
    (w : World ℕ) × (serve echo 30 30 talk begun ≡ some w) × Works echo every w × Alive w
unfolding rounds
serve_echoes_example =
    serve_echoes echo left left 0 echo-ReadLaws echo-Fills echo-Ends echo-Drains (λ s. omega arith)
      every echo-KeepEcho echo-KeepIntact 30 30 talk begun (omega arith)
      (inr (
        inl (record {
          echoing = record {
            text = tt;
            echoed = refl;
            callback = refl;
            output = refl;
            reader_mine = λ k h. refl;
            writer_mine = λ k h. refl;
          };
          reads = refl;
          rests = refl;
          empty = refl;
        })))
      (inr (record { stream = refl; fits = omega arith }))
