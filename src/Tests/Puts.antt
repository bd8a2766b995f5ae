-- ===== src/Tests/Puts.antt =====
-- ngxe_writer_buffer_set of references, and what is left when the handlers wait.
use nginx_engine.Base.{ℕ, true, Option, some, is_some, [], ◌∷◌, false, ◌≡◌, refl, arith}
use nginx_engine.State.{World, connection, undef, scalar_ref, array_ref, scalar}
use nginx_engine.Callback.{callback}
use nginx_engine.Writer.{writer_event}
use nginx_engine.Writer.Plain
use nginx_engine.Writer.Returns.Array.{rounds}
use nginx_engine.Writer.Stream.Rules.{view, Settled}
use nginx_engine.Writer.Waiting.{writer_event_waits}
use nginx_engine.Writer.Waiting.Labels.{Waits}
use nginx_engine.Reader.Waiting as Reading
use nginx_engine.Api.{returned}
use nginx_engine.Api.Writer.{writer_buffer_set}
use nginx_engine.Api.Putting.{IsWritable}
use nginx_engine.Api.Putting.References.{put_scalar_delivers, put_array_delivers}
use nginx_engine.Tests.{env, writing, end_of, some-end_of, small_send-IsPart}
use nginx_engine.Tests.Writers.{
  more_scalar, more_items, more_text, left, cell-Fills, cells-Fills, cell-Refills, cells-Refills,
  cells-Ends, text,
}
use nginx_engine.Tests.Calls.{globals}

abbrev drained : World ℕ
drained = writing 3 [] undef

drained-IsWritable : IsWritable 1 drained
drained-IsWritable = record { session = refl; callback = refl; output = refl }

put_scalar_delivers_example :
    (w : World ℕ) × (writer_buffer_set
        (env more_scalar)
        globals
        11
        connection
        false
        (scalar_ref (65 ∷ 66 ∷ 67 ∷ []))
        drained
      ≡ some (returned w))
    × Settled (view w)
put_scalar_delivers_example =
    put_scalar_delivers (env more_scalar) left cell-Fills 1 (λ s. omega arith) globals 11 false
      cell-Refills small_send-IsPart (65 ∷ 66 ∷ 67 ∷ []) drained (omega arith) refl refl
      drained-IsWritable refl (omega arith)

put_array_delivers_example :
    (w : World ℕ) × (writer_buffer_set
        (env more_items)
        globals
        60
        connection
        false
        (array_ref (scalar (65 ∷ 66 ∷ []) ∷ scalar (67 ∷ []) ∷ []))
        drained
      ≡ some (returned w))
    × Settled (view w)
unfolding rounds
put_array_delivers_example =
    put_array_delivers (env more_items) left cells-Fills 1 (λ s. omega arith) globals 60 false 3
      cells-Ends cells-Refills small_send-IsPart (scalar (65 ∷ 66 ∷ []) ∷ scalar (67 ∷ []) ∷ [])
      drained (omega arith) (omega arith, (omega arith, tt)) refl refl drained-IsWritable refl
      (omega arith)

abbrev text_event : Option (World ℕ)
text_event = writer_event (env more_text) 9 connection text

text_event_returns : is_some text_event ≡ true
unfolding writer_event Plain.enter Plain.send_block Plain.after_block callback
text_event_returns = refl

writer_event_waits_example : Waits (end_of text_event)
writer_event_waits_example =
    writer_event_waits (env more_text) 9 text (end_of text_event)
      (record { session = refl; callback = refl; output = refl })
      (some-end_of text_event text_event_returns)
