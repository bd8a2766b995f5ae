-- ===== src/Tests/Accepts.antt =====
-- eg/echo-server.pl: the callback 9 is that of the server, the callbacks 7 and 8 are the writer's and
-- the reader's.
use nginx_engine.Base.{
  ℕ, ◌≤◌, pos, Bool, true, false, not, ◌&&◌, ◌==◌, Option, none, some, List, [], ◌∷◌, append-nil,
  if◌then◌else◌, if_cases, if_rule, if_true, ◌≡◌, refl, ap, sym, ◌∙◌, arith, inl, inr,
}
use nginx_engine.State.{World, Env}
use nginx_engine.Server.{server_init_connection}
use nginx_engine.Reader.Room.{ReadLaws}
use nginx_engine.Reader.Intact.{Alive, KeepIntact}
use nginx_engine.Reader.Rounds.{Drains, IsModest}
use nginx_engine.Writer.Returns.Rules.{Fills}
use nginx_engine.Writer.Returns.Array.{Ends, rounds}
use nginx_engine.Writer.Scalar.{is_ref}
use nginx_engine.Api.{Reply, state_of}
use nginx_engine.Life.Echo.{Works, KeepEcho, Left}
use nginx_engine.Life.Echo.Events.{serve}
use nginx_engine.Life.Echo.Accepted.{Opening, open_connection, accepted_echoes, Opens}
use nginx_engine.Tests.{env, reading, send_less, send_waits}
use nginx_engine.Tests.Calls.{globals, supply}
use nginx_engine.Tests.Echoes.{send_back, send_back-Alive, send_back-Left, talk}
use nginx_engine.Tests.Readers.{left, small_recv_bounded, recv_less, recv_left}

abbrev opening : Opening
opening = record {
  writer_callback = 7;
  writer_supply = supply;
  writer_timeout = pos 5000;
  reader_callback = 8;
  reader_supply = supply;
  reader_timeout = pos 5000;
}

abbrev is_nil : List ℕ → Bool
is_nil [] = true
is_nil (x ∷ xs) = false

-- A session without buffers.
abbrev bare : World ℕ → World ℕ
bare w = record w {
  has_pool = true;
  has_session = true;
  has_reader_buffer = false;
  has_writer_buffer = false;
}

abbrev result : World ℕ → Option (Reply ℕ) → World ℕ
result w none = w
result w (some r) = state_of r

-- The two calls, on a connection on which nothing was received.
opens : World ℕ → World ℕ
unfolding open_connection
opens w =
    if is_nil w.received && is_nil w.consumed
    then result w (open_connection (env send_back) globals opening (bare w))
    else w

abbrev server : Env ℕ
server = record (env send_back) { call_sv = λ k. if k == 9 then opens else send_back }

server-ReadLaws : ReadLaws server
server-ReadLaws = record { grow_enough = λ len n. ground arith; recv_bounded = small_recv_bounded }

-- What holds after both kinds of subs holds after each sub.
either {ℓ} :
    (P : World ℕ → Type ℓ) (k : ℕ) (w : World ℕ)
    → P (opens w)
    → P (send_back w)
    → P (server.call_sv k w)
either P k w p q = if_rule (λ (f : World ℕ → World ℕ). P (f w)) (k == 9) p q

opens_left : (w : World ℕ) → (opens w).outside ≤ w.outside
unfolding opens
opens_left w =
    if_rule (λ (v : World ℕ). v.outside ≤ w.outside) (is_nil w.received && is_nil w.consumed)
      (omega arith) (omega arith)

server-Fills : Fills server left
server-Fills = record {
  less = send_less;
  waits = send_waits;
  sub = λ k w. either (λ v. v.outside ≤ w.outside) k w (opens_left w) (omega arith);
  native = λ f w. omega arith;
}

opens_no_ref :
    (w : World ℕ) → is_ref w.writer_buffer ≡ false → is_ref (opens w).writer_buffer ≡ false
unfolding opens
opens_no_ref w h =
    if_rule (λ (v : World ℕ). is_ref v.writer_buffer ≡ false)
      (is_nil w.received && is_nil w.consumed) refl h

server-Ends : Ends server left 0
server-Ends = record {
  sub = λ k w n y.
      absurd (cc (either (λ v. is_ref v.writer_buffer ≡ false) k w (opens_no_ref w n) refl));
  native = λ f w n y. absurd cc;
}

abbrev Modest : World ℕ → World ℕ → Type 0
Modest = IsModest server left left 0

opens-Modest : (w : World ℕ) → Modest w (opens w)
unfolding opens
opens-Modest w =
    if_rule (Modest w) (is_nil w.received && is_nil w.consumed)
      (record { no_more = omega arith; fits = λ h. omega arith; items_bounded = λ h y. absurd cc })
      (record { no_more = omega arith; fits = λ h. h; items_bounded = λ h. h })

server-Drains : Drains server left left 0
server-Drains = record {
  less = recv_less;
  recv_left = recv_left;
  event = λ s. omega arith;
  event_left = λ s. omega arith;
  sub = λ k w. either (Modest w) k w (opens-Modest w) (record {
    no_more = omega arith;
    fits = λ h. omega (arith, h);
    items_bounded = λ h y. absurd cc;
  });
  native = λ f w. record { no_more = omega arith; fits = λ h. h; items_bounded = λ h. h };
}

nil_of : (xs : List ℕ) → is_nil xs ≡ true → xs ≡ []
nil_of [] h = refl
nil_of (x ∷ xs) h = absurd cc

both_of : (a b : Bool) → (a && b) ≡ true → (a ≡ true) × (b ≡ true)
both_of a b h = ground arith

opens-Alive : (w : World ℕ) → Alive w → Alive (opens w)
unfolding opens
opens-Alive w (inl h) = if_rule Alive (is_nil w.received && is_nil w.consumed) (inl h) (inl h)
opens-Alive w (inr i) =
    if_cases Alive (is_nil w.received && is_nil w.consumed)
      (λ h. inr (record {
        stream =
            append-nil w.consumed
            ∙ nil_of w.consumed (both_of _ _ h).1
            ∙ sym (nil_of w.received (both_of _ _ h).0);
        fits = omega arith;
      }))
      (λ h. inr i)

server-KeepIntact : KeepIntact server
server-KeepIntact = record {
  sub = λ k w h. either Alive k w (opens-Alive w h) (send_back-Alive w h);
  native = λ f w h. h;
}

-- The callbacks but that of the server.
abbrev answers : ℕ → Bool
answers k = not (k == 9)

opens_gone : (w : World ℕ) → w.destroyed ≡ true → (opens w).destroyed ≡ true
unfolding opens
opens_gone w h =
    if_rule (λ (v : World ℕ). v.destroyed ≡ true) (is_nil w.received && is_nil w.consumed) h h

server-KeepEcho : KeepEcho server answers
server-KeepEcho = record {
  sub = λ k v own i h.
      if_cases (λ (f : World ℕ → World ℕ). Left server answers v (f v)) (k == 9)
        (λ same. absurd (cc (ap not same))) (λ other. send_back-Left server answers v i h);
  native = λ f w i h. inr (i, refl, refl);
  sub_gone = λ k w h. either (λ v. v.destroyed ≡ true) k w (opens_gone w h) h;
  native_gone = λ f w h. h;
}

bare_lem :
    (v : World ℕ)
    → v.has_pool ≡ true
    → v.has_session ≡ true
    → v.has_reader_buffer ≡ false
    → v.has_writer_buffer ≡ false
    → bare v ≡ v
bare_lem v p s r w = λ i. record v {
  has_pool = sym p i;
  has_session = sym s i;
  has_reader_buffer = sym r i;
  has_writer_buffer = sym w i;
}

-- The subs are not called in the two calls.
same_calls :
    (v : World ℕ)
    → open_connection (env send_back) globals opening (bare v)
      ≡ open_connection server globals opening (bare v)
unfolding open_connection
same_calls v = refl

server-Opens : Opens server globals opening server-ReadLaws answers refl refl (λ x. refl) 9
unfolding opens
server-Opens v r offered new same =
    if_true (is_nil v.received && is_nil v.consumed) _ _
      (ap (λ l. is_nil l && is_nil v.consumed) new.received ∙ ap is_nil new.consumed)
    ∙ ap (result v) (
        same_calls v
        ∙ ap (open_connection server globals opening)
            (bare_lem v offered.writer.pool offered.writer.session new.no_input new.no_output)
        ∙ same)

abbrev connected : World ℕ
connected = reading 0

accepted_echoes_example :
    (w : World ℕ) × (serve server 30 30 talk (server_init_connection server true 9 "peer" connected)
      ≡ some w)
    × Works server answers w
    × Alive w
unfolding rounds
accepted_echoes_example =
    accepted_echoes server left left 0 server-ReadLaws server-Fills server-Ends server-Drains
      (λ s. omega arith) (λ x. refl) answers server-KeepEcho server-KeepIntact globals opening refl
      refl 30 30 9 5 "peer" talk connected server-Opens refl refl (λ n. refl) (λ n. refl) refl refl
      refl refl (omega arith)
