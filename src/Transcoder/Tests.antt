-- ===== src/Transcoder/Tests.antt =====
-- A short stream, and the theorems at it. A frame is one payload here, by its first letter.
use ctrl_gateway.Prelude.{ℕ, ◌≡◌, ◌⊎◌, refl, some, List, [], ◌∷◌, ◌==◌, if◌then◌else◌}
use ctrl_gateway.Prelude.Text.{Text, codes, text_eq, lower}
use ctrl_gateway.Transcoder.{
  Choice, Payload, tool_use, message_start, text_start, tool_start, text_delta, input_delta,
  block_stop, message_delta, message_stop, anthropic_stop_reason, add_tool_delta, add_tool_deltas,
  handle_payload, handle_payloads, split_frames, place, sorted, handle_frames, feed, tool_blocks,
  close, finish, feed_all, encode,
}
use ctrl_gateway.Transcoder.Phases.{before, ended, read}
use ctrl_gateway.Transcoder.Protocol.{encode-IsWhole}
use ctrl_gateway.Transcoder.Frames.{joined, encode-joined}

program : Unit {0}
unfolding text_eq lower anthropic_stop_reason add_tool_delta add_tool_deltas handle_payload
    handle_payloads split_frames place sorted handle_frames feed tool_blocks close finish feed_all
    encode
program = tt

abbrev payload : Choice → Payload
payload c = record { model = codes "m"; choice = some c; completion_tokens = some 7 }

abbrev says : Text → Payload
says t = payload (record { content = t; tool_calls = []; finish_reason = [] })

abbrev calls : ℕ → Text → Payload
calls i t = payload (record {
  content = [];
  tool_calls = record { index = i; id = codes "c"; name = codes "f"; arguments = t } ∷ [];
  finish_reason = [];
})

abbrev read_frame : Text → List Payload
read_frame [] = []
read_frame (c ∷ s) = (if c == 116 then says s else calls c s) ∷ []

abbrev as_it_is : Text → Text
as_it_is s = s

-- Two texts, cut inside the first, and the parts of two calls, the second first.
abbrev chunks : List Text
chunks = codes "tHe" ∷ codes "llo\n\nt!" ∷ codes "\n" ∷ codes "\nb{\n\na1\n\nb}\n\n" ∷ []

written :
    encode read_frame as_it_is chunks
    ≡ message_start (codes "m")
      ∷ text_start 0
      ∷ text_delta 0 (codes "Hello")
      ∷ text_delta 0 (codes "!")
      ∷ block_stop 0
      ∷ tool_start 1 (codes "c") (codes "f")
      ∷ input_delta 1 (codes "1")
      ∷ block_stop 1
      ∷ tool_start 2 (codes "c") (codes "f")
      ∷ input_delta 2 (codes "{}")
      ∷ block_stop 2
      ∷ message_delta tool_use 7
      ∷ message_stop
      ∷ []
unfolding program
written = refl

encode-IsWhole_example :
    (read before (encode read_frame as_it_is chunks) ≡ some ended)
    ⊎ (read before (encode read_frame as_it_is chunks) ≡ some before)
encode-IsWhole_example = encode-IsWhole read_frame as_it_is chunks

encode-joined_example :
    encode read_frame as_it_is chunks ≡ encode read_frame as_it_is (joined chunks ∷ [])
encode-joined_example = encode-joined read_frame as_it_is chunks
