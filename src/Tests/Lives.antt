-- ===== src/Tests/Lives.antt =====
-- From ngxe_reader to the events of the connection.
use nginx_engine.Base.{ℕ, pos, true, some, ◌≡◌, refl, ◌⊎◌, arith}
use nginx_engine.State.{World, connection}
use nginx_engine.Client.{read_side, write_side}
use nginx_engine.Base.{inr}
use nginx_engine.Api.{handed}
use nginx_engine.Api.Clients.{Dial, rc_again, client}
use nginx_engine.Life.Dialling.{client_disconnects}
use nginx_engine.Reader.Intact.{IsIntact}
use nginx_engine.Api.{Reply, state_of}
use nginx_engine.Api.Reader
use nginx_engine.Life.{deliver, arrive, handler_of}
use nginx_engine.Life.Reading.{reader_delivers}
use nginx_engine.Writer.Returns.Array.{rounds}
use nginx_engine.Base.{[], ◌∷◌}
use nginx_engine.State.{string}
use nginx_engine.Api.{returned}
use nginx_engine.Api.Writer.{writer_buffer_set}
use nginx_engine.Api.Putting.{put_delivers}
use nginx_engine.Writer.Stream.Rules.{view}
use nginx_engine.Writer.Stream.Plain.{Sound}
use nginx_engine.Tests.{idle, env, writing}
use nginx_engine.Tests.Writers.{more_text, text-Fills, text-Refills}
use nginx_engine.Tests.Readers.{
  system, left, system-ReadLaws, system-Fills, system-Ends, system-Drains, system-KeepIntact,
}
use nginx_engine.Tests.Calls.{globals, supply, served, accepted_one}

reader_delivers_example :
    (r : Reply ℕ) × (w' : World ℕ) × (Reader.reader system globals connection
        (pos 1)
        (pos 15)
        2
        7
        supply
        accepted_one
      ≡ some r)
    × (deliver system 20 9 read_side
          (handler_of read_side (state_of r))
          (arrive read_side idle 2 (state_of r))
        ≡ some w')
    × ((w'.destroyed ≡ true) ⊎ IsIntact w')
unfolding rounds
reader_delivers_example =
    reader_delivers system left left 0 system-ReadLaws system-Fills system-Ends system-Drains
      (λ s. omega arith) globals 7 supply system-KeepIntact (pos 1) (pos 15) 2 20 9 idle 2
      accepted_one served (λ x. refl) refl
      (record { buffer = λ h. absurd cc; no_buffer = λ h. refl }) (λ y. absurd cc) (omega arith)
      (omega arith)

abbrev drained : World ℕ
drained = writing 3 [] (string [])

put_delivers_example :
    (w' : World ℕ) × (writer_buffer_set
        (env more_text)
        globals
        9
        connection
        true
        (string (65 ∷ 66 ∷ 67 ∷ []))
        drained
      ≡ some (returned w'))
    × Sound (env more_text) (view w')
put_delivers_example =
    put_delivers (env more_text) left text-Fills 1 text-Refills (λ s. omega arith) globals 9 65
      (66 ∷ 67 ∷ []) drained refl refl (record { session = refl; callback = refl; output = refl })
      refl (omega arith)

-- Every address can be parsed, and the connection is being made.
abbrev dialling : Dial ℕ
dialling = record { inet_addr = λ a. some 7; connect_peer = λ p s. (rc_again, true, s) }

client_disconnects_example :
    (v w' : World ℕ) × (client system 7
        (pos 30)
        dialling
        supply
        globals
        []
        (49 ∷ [])
        80
        1
        accepted_one
      ≡ some (handed v))
    × (v.write.timer ≡ some (pos 30))
    × (deliver system 9 9 write_side
          (handler_of write_side v)
          (arrive write_side (record idle { timedout = true }) 2 v)
        ≡ some w')
    × (w'.destroyed ≡ true)
client_disconnects_example =
    client_disconnects system 7 (pos 30) dialling supply globals [] (49 ∷ []) 80 1 0 7 accepted_one
      9 9 write_side (record idle { timedout = true }) 2 (λ i. refl) (λ p x. refl) (λ p x. refl)
      refl refl refl (inr refl)
