-- ===== src/Writer/Stream/Rules.antt =====
-- The stream of one connection, and what the steps that the three writer handlers share do to it.
use nginx_engine.Base.{
  ℕ, zero, suc, Bool, true, false, ◌&&◌, Option, none, some, is_some, List, [], ◌∷◌, ◌++◌,
  append-nil, drop, length, ◌≤◌, ◌≡◌, refl, ◌∙◌, ◌⊎◌, inr, if_rule,
}
use nginx_engine.State.{
  Buffer, string, undef, scalar_ref, array_ref, other_ref, Item, scalar, not_ref, Sent, accepted,
  World, Env, ErrorValue,
}
use nginx_engine.Callback.{callback, call_perl, push_args}
use nginx_engine.Callback.Rule.{callback_rule}
use nginx_engine.Connection.{fail, handle_read, start_error, event_error}
use nginx_engine.Connection.Close.{fail-destroyed}
use nginx_engine.Writer.Blocks.{
  Jump, return, send_again, time_out, wait_write, retry_write, restart_reader,
}

-- What the stream depends on.
pub record View : Type 0 where
  pub destroyed : Bool
  pub sent : List ℕ
  pub queued : List ℕ
  pub buffer : Buffer
  pub offset : ℕ
  pub index : ℕ

abbrev pub view : {S : Type 0} → World S → View
view w = record {
  destroyed = w.destroyed;
  sent = w.sent;
  queued = w.queued;
  buffer = w.writer_buffer;
  offset = w.writer_offset;
  index = w.writer_index;
}

abbrev pub concat : List Item → List ℕ
concat [] = []
concat (scalar b ∷ l) = b ++ concat l
concat (not_ref ∷ l) = concat l

-- the bytes that a buffer asks to be written
abbrev pub content : Buffer → List ℕ
content (string b) = b
content undef = []
content (scalar_ref b) = b
content (array_ref l) = concat l
content other_ref = []

-- the bytes of an array from byte `o` of element `i` on
abbrev pub remaining : List Item → ℕ → ℕ → List ℕ
remaining [] i o = []
remaining (scalar b ∷ l) zero o = drop o b ++ concat l
remaining (not_ref ∷ l) zero o = concat l
remaining (x ∷ l) (suc i) o = remaining l i o

-- the bytes that are left of a buffer at the writer's position
abbrev pub unsent : Buffer → ℕ → ℕ → List ℕ
unsent (scalar_ref b) o i = drop o b
unsent (array_ref l) o i = remaining l i o
unsent other o i = content other

-- What was sent and the whole of the buffer are what Perl subs have queued.
abbrev pub Fresh : View → Type 0
Fresh v = v.sent ++ content v.buffer ≡ v.queued

-- What was sent and what is left of the buffer are what Perl subs have queued.
abbrev pub Underway : View → Type 0
Underway v = v.sent ++ unsent v.buffer v.offset v.index ≡ v.queued

-- Where a handler may leave the stream.
abbrev pub Settled : View → Type 0
Settled v = (v.destroyed ≡ true) ⊎ (Underway v ⊎ Fresh v)

-- All is sent, and nothing is in the buffer.
pub record IsDrained (Kind : Buffer → ℕ → Type 0) (v : View) : Type 0 where
  pub all_sent : v.sent ≡ v.queued
  pub empty : content v.buffer ≡ []
  pub kind : Kind v.buffer v.offset

-- The connection is destroyed, or there is a new buffer of the kind that the handler can write.
abbrev pub Refilled : (Buffer → ℕ → Type 0) → View → Type 0
Refilled Kind v = (v.destroyed ≡ true) ⊎ (Fresh v × Kind v.buffer v.offset)

-- send() takes no more bytes than it is given.
abbrev pub IsPart : Sent → List ℕ → Type 0
IsPart (accepted n) b = n ≤ length b
IsPart _ b = Unit {0}

abbrev pub SendsPart : {S : Type 0} → Env S → Type 0
SendsPart {S} e = (s : S) (b : List ℕ) → IsPart (e.send s b).0 b

-- Perl subs and native handlers, when all is sent, queue what they put into the buffer, and put
-- in a buffer of the handler's kind.
pub record Refills {S : Type 0} (Kind : Buffer → ℕ → Type 0) (e : Env S) : Type 0 where
  pub sub : (k : ℕ) (w : World S) → IsDrained Kind (view w) → Refilled Kind (view (e.call_sv k w))
  pub native :
      (f : ℕ) (w : World S) → IsDrained Kind (view w) → Refilled Kind (view (e.call_native f w))

pub drained-Refilled : (Kind : Buffer → ℕ → Type 0) (v : View) → IsDrained Kind v → Refilled Kind v
drained-Refilled Kind v d = inr (rw d.empty (append-nil v.sent ∙ d.all_sent), d.kind)

module _ {S : Type 0} (e : Env S) where
  pub callback-Refilled :
      (Kind : Buffer → ℕ → Type 0) (r : Refills Kind e) (cb : ℕ) (w : World S)
      → IsDrained Kind (view w)
      → Refilled Kind (view (callback e cb false w))
  unfolding call_perl
  callback-Refilled Kind r cb w d =
      callback_rule e (λ v. Refilled Kind (view v)) cb false w
        (λ sub. r.sub cb (push_args cb sub w) d) (λ f. r.native f w d)
        (drained-Refilled Kind (view w) d)

  -- Steps that leave the view, or destroy the connection.
  module _ (P : View → Type 0) (dead : (v : View) → v.destroyed ≡ true → P v) (cb : ℕ) where
    abbrev V : World S → Type 0
    V w = P (view w)

    pub fail_rule : (err : ErrorValue) (w : World S) → P (view (fail e cb err w))
    fail_rule err w = dead _ (fail-destroyed e cb err w)

    pub time_out_rule : (w : World S) → P (view (time_out e cb w))
    unfolding time_out
    time_out_rule w = fail_rule _ _

    pub wait_write_rule :
        (reset : World S → World S) (w : World S) → P (view w) → P (view (wait_write e cb reset w))
    unfolding wait_write
    wait_write_rule reset w p = if_rule V (e.handle_write_event w.outside).0 p (fail_rule _ _)

    start_error_rule : (c : Option ℕ) (w : World S) → P (view w) → P (view (start_error e c w))
    unfolding start_error
    start_error_rule none w p = p
    start_error_rule (some k) w p = dead _ (fail-destroyed e k _ w)

    pub restart_reader_rule : (w : World S) → P (view w) → P (view (restart_reader e cb w))
    unfolding restart_reader
    restart_reader_rule w p =
        if_rule V (is_some w.reader_callback && w.has_reader_buffer)
          (if_rule V (e.handle_read_event w.outside).0 p
            (start_error_rule w.reader_callback (handle_read e _).1 p))
          p

  -- On NGX_AGAIN nothing of the view changes, and the handler returns or sends again.
  pub retry_write_rule :
      (P : Jump S → Type 0) (cb : ℕ) (reset : World S → World S) (w : World S)
      → ((v : World S) → view v ≡ view w → P (send_again v))
      → ((v : World S) → view v ≡ view w → P (return v))
      → ((v : World S) → v.destroyed ≡ true → P (return v))
      → P (retry_write e cb reset w)
  unfolding retry_write
  retry_write_rule P cb reset w again back dead =
      if_rule P (e.handle_write_event w.outside).0
        (if_rule P w.write.ready (again _ refl) (back _ refl))
        (dead _ (fail-destroyed e cb event_error _))
