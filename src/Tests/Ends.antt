-- ===== src/Tests/Ends.antt =====
-- The reference counts of a session that was opened, used and closed.
use nginx_engine.Base.{ℕ, pos, true, Option, none, some, ◌≡◌, refl, sym, ◌∙◌, fun_ext, inl, [], ◌∷◌}
use nginx_engine.State.{World, connection}
use nginx_engine.Callback.{callback}
use nginx_engine.Connection.{close}
use nginx_engine.Reader.{recv_block, callback_block}
use nginx_engine.Writer.Plain
use nginx_engine.Api.{Reply, state_of, free_temps, answered}
use nginx_engine.Api.Reader
use nginx_engine.Api.Debts.{IsTidy, refs-close}
use nginx_engine.Api.Debts.Kept.{KeepDebts}
use nginx_engine.Life.Echo.Events.{serve}
use nginx_engine.Life.Settled.{refs-close-session}
use nginx_engine.Tests.{end_of, some-end_of}
use nginx_engine.Tests.Calls.{globals, supply, accepted_one}
use nginx_engine.Tests.Echoes.{echo, send_back, talk}

-- Closing reads nothing that a sub which sends back writes.
send_back-refs :
    (w : World ℕ)
    → IsTidy w
    → (close echo connection (send_back w)).refs ≡ (close echo connection w).refs
send_back-refs w t = fun_ext λ a. refs-close echo (send_back w) a t ∙ sym (refs-close echo w a t)

echo-KeepDebts : KeepDebts echo
echo-KeepDebts = record {
  sub = λ cb w t. t;
  sub_refs = λ cb w t. send_back-refs w t;
  handler = λ cb w. refl;
  args = λ cb w. refl;
  native = λ f w t. t;
  native_refs = λ f w t. refl;
}

-- The callbacks that the session has not made hold nothing.
abbrev new_one : World ℕ
new_one = record accepted_one {
  callbacks = λ k. record (accepted_one.callbacks k) { decremented = true };
}

new_one-IsTidy : IsTidy new_one
new_one-IsTidy = record { registered = λ k. inl refl; empty = λ h. absurd cc }

abbrev reply_of : Option (Reply ℕ) → Reply ℕ
reply_of none = answered (pos 0) new_one
reply_of (some r) = r

abbrev opened : Reply ℕ
opened = reply_of (Reader.reader echo globals connection (pos 1) (pos 15) 2 7 supply new_one)

consumed_test :
    (end_of (serve echo 30 30 talk (free_temps (state_of opened)))).consumed
    ≡ 65 ∷ 66 ∷ 65 ∷ 66 ∷ []
unfolding Reader.reader serve free_temps recv_block callback_block callback Plain.send_block
    Plain.after_block
consumed_test = refl

refs-close-session_example :
    (close echo connection (end_of (serve echo 30 30 talk (free_temps (state_of opened))))).refs
    ≡ (close echo connection new_one).refs
unfolding Reader.reader serve free_temps recv_block callback_block callback Plain.send_block
    Plain.after_block
refs-close-session_example =
    refs-close-session echo echo-KeepDebts globals 7 supply (pos 1) (pos 15) 2 30 30 talk new_one
      opened (end_of (serve echo 30 30 talk (free_temps (state_of opened))))
      (record { initialized = refl; pool = refl; session = refl; memory = λ i. refl }) (λ x. refl)
      refl refl refl new_one-IsTidy refl
      (some-end_of (serve echo 30 30 talk (free_temps (state_of opened))) refl)
