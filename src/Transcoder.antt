-- ===== src/Transcoder.antt =====
-- The encoder of streams of gateway/transcoder.py, AnthropicOutboundStreamEncoder, which turns the
-- chunks of an OpenAI stream into the events of Anthropic's. What `_handle_frame` finds in a frame (its
-- data lines as JSON) and the JSON of a tool's arguments are parameters; an event is its type and
-- fields. A frame whose JSON is no dict, at which the source raises, is not among the payloads.
mod Phases
mod Protocol
mod Splits
mod Frames
mod Tests
use ctrl_gateway.Prelude.{
  ℕ, zero, suc, ◌+◌, Bool, true, false, not, ◌&&◌, ◌||◌, Option, none, some, List, [], ◌∷◌, ◌++◌,
  map, leb, ltb, ◌==◌, all, any, if◌then◌else◌,
}
use ctrl_gateway.Prelude.Text.{Text, codes, text_eq, lower}

pub record ToolDelta : Type 0 where
  pub index : ℕ
  pub id : Text
  pub name : Text
  pub arguments : Text

-- A missing text is empty, which the encoder treats alike.
pub record Choice : Type 0 where
  pub content : Text
  pub tool_calls : List ToolDelta
  pub finish_reason : Text

pub record Payload : Type 0 where
  pub model : Text
  pub choice : Option Choice
  pub completion_tokens : Option ℕ

pub record Slot : Type 0 where
  pub id : Text
  pub name : Text
  pub arguments : Text

pub data StopReason : Type 0 where
  end_turn max_tokens tool_use : StopReason

pub data SseEvent : Type 0 where
  message_start : Text → SseEvent
  text_start : ℕ → SseEvent
  tool_start : ℕ → Text → Text → SseEvent
  text_delta : ℕ → Text → SseEvent
  input_delta : ℕ → Text → SseEvent
  block_stop : ℕ → SseEvent
  message_delta : StopReason → ℕ → SseEvent
  message_stop : SseEvent

pub record Encoder : Type 0 where
  pub buffer : Text
  pub model : Text
  pub started : Bool
  pub text_block_open : Bool
  pub output_tokens : ℕ
  pub finish_reason : Text
  pub tool_calls : List (ℕ × Slot)

-- `AnthropicOutboundStreamEncoder()`
abbrev pub encoder : Encoder
encoder = record {
  buffer = [];
  model = [];
  started = false;
  text_block_open = false;
  output_tokens = 0;
  finish_reason = [];
  tool_calls = [];
}

abbrev pub is_blank : Text → Bool
is_blank [] = true
is_blank (c ∷ s) = false

abbrev pub is_ascii_space : ℕ → Bool
is_ascii_space c = (leb 9 c && leb c 13) || c == 32

-- `a or b`
abbrev pub or_text : Text → Text → Text
or_text a b = if is_blank a then b else a

-- `_anthropic_stop_reason`
unfoldable pub anthropic_stop_reason : Text → StopReason
anthropic_stop_reason reason =
    let normalized = lower reason in
    if any (text_eq normalized) (codes "length" ∷ codes "max_tokens" ∷ [])
    then max_tokens
    else if any (text_eq normalized)
        (codes "tool_calls" ∷ codes "tool_use" ∷ codes "function_call" ∷ [])
    then tool_use
    else end_turn

abbrev updated : ToolDelta → Slot → Slot
updated tc slot = record {
  id = or_text tc.id slot.id;
  name = or_text tc.name slot.name;
  arguments = slot.arguments ++ tc.arguments;
}

-- The slot of the index, made when it is new.
pub add_tool_delta : ToolDelta → List (ℕ × Slot) → List (ℕ × Slot)
add_tool_delta tc [] = (tc.index, updated tc (record { id = []; name = []; arguments = [] })) ∷ []
add_tool_delta tc ((i, slot) ∷ calls) =
    if i == tc.index then (i, updated tc slot) ∷ calls else (i, slot) ∷ add_tool_delta tc calls

pub add_tool_deltas : List ToolDelta → List (ℕ × Slot) → List (ℕ × Slot)
add_tool_deltas [] calls = calls
add_tool_deltas (tc ∷ tcs) calls = add_tool_deltas tcs (add_tool_delta tc calls)

abbrev pub start_events : Payload → Encoder → List SseEvent
start_events p e = if e.started then [] else message_start (or_text p.model e.model) ∷ []

abbrev pub text_events : Text → Bool → List SseEvent
text_events content is_open =
    if is_blank content
    then []
    else (if is_open then [] else text_start 0 ∷ []) ++ (text_delta 0 content ∷ [])

abbrev pub take_choice : Choice → Encoder → Encoder
take_choice c e = record e {
  text_block_open = e.text_block_open || not (is_blank c.content);
  tool_calls = add_tool_deltas c.tool_calls e.tool_calls;
  finish_reason = or_text c.finish_reason e.finish_reason;
}

abbrev pub begun : Payload → Encoder → Encoder
begun p e = record e {
  started = true;
  model = if e.started then e.model else or_text p.model e.model;
}

abbrev pub take_usage : Option ℕ → Encoder → Encoder
take_usage none e = e
take_usage (some n) e = record e { output_tokens = n }

-- `_handle_payload`
pub handle_payload : Payload → Encoder → List SseEvent × Encoder
handle_payload p e = elim p.choice [
  | none ↦ (start_events p e, take_usage p.completion_tokens (begun p e))
  | some c ↦ (
    start_events p e ++ text_events c.content e.text_block_open,
    take_usage p.completion_tokens (take_choice c (begun p e)),
  )
]

pub handle_payloads : List Payload → Encoder → List SseEvent × Encoder
handle_payloads [] e = ([], e)
handle_payloads (p ∷ ps) e =
    let one = handle_payload p e in let rest = handle_payloads ps one.1 in (one.0 ++ rest.0, rest.1)

abbrev pub onto_first : ℕ → List Text → Text → List Text × Text
onto_first c [] rest = ([], c ∷ rest)
onto_first c (f ∷ fs) rest = ((c ∷ f) ∷ fs, rest)

-- The frames that the loop of `feed` splits off at each blank line, and what it leaves.
pub split_frames : Text → List Text × Text
split_frames [] = ([], [])
split_frames (c ∷ []) = ([], c ∷ [])
split_frames (c ∷ d ∷ s) =
    let after = split_frames s in
    let rest = split_frames (d ∷ s) in
    if c == 10 && d == 10 then ([] ∷ after.0, after.1) else onto_first c rest.0 rest.1

-- `sorted(self._tool_calls)`
pub place : ℕ × Slot → List (ℕ × Slot) → List (ℕ × Slot)
place (i, s) [] = (i, s) ∷ []
place (i, s) ((j, t) ∷ calls) =
    let rest = place (i, s) calls in if leb i j then (i, s) ∷ (j, t) ∷ calls else (j, t) ∷ rest

pub sorted : List (ℕ × Slot) → List (ℕ × Slot)
sorted [] = []
sorted (c ∷ calls) = place c (sorted calls)

module _ (read_frame : Text → List Payload) (partial_json : Text → Text) where
  pub handle_frames : List Text → Encoder → List SseEvent × Encoder
  handle_frames [] e = ([], e)
  handle_frames (f ∷ fs) e =
      let one = handle_payloads (read_frame f) e in
      let rest = handle_frames fs one.1 in (one.0 ++ rest.0, rest.1)

  -- `feed`
  pub feed : Text → Encoder → List SseEvent × Encoder
  feed chunk e =
      let (frames, left) = split_frames (e.buffer ++ chunk) in
      handle_frames frames (record e { buffer = left })

  pub tool_blocks : ℕ → List (ℕ × Slot) → List SseEvent
  tool_blocks n [] = []
  tool_blocks n ((i, s) ∷ calls) =
      tool_start n s.id s.name
      ∷ input_delta n (partial_json s.arguments)
      ∷ block_stop n
      ∷ tool_blocks (n + 1) calls

  abbrev pub last_reason : Encoder → StopReason
  last_reason e = elim e.tool_calls [
    | [] ↦ anthropic_stop_reason e.finish_reason
    | c ∷ cs ↦ anthropic_stop_reason (or_text e.finish_reason (codes "tool_calls"))
  ]

  -- `_close`
  pub close : Encoder → List SseEvent
  close e =
      if not e.started
      then []
      else (if e.text_block_open then block_stop 0 ∷ [] else [])
        ++ (tool_blocks (if e.text_block_open then 1 else 0) (sorted e.tool_calls)
            ++ (message_delta (last_reason e) e.output_tokens ∷ message_stop ∷ []))

  -- `finish`: white space left in the buffer is no frame.
  pub finish : Encoder → List SseEvent
  finish e =
      let last = handle_payloads (read_frame e.buffer) (record e { buffer = [] }) in
      if all is_ascii_space e.buffer then close e else last.0 ++ close last.1

  pub feed_all : List Text → Encoder → List SseEvent × Encoder
  feed_all [] e = ([], e)
  feed_all (chunk ∷ chunks) e =
      let one = feed chunk e in let rest = feed_all chunks one.1 in (one.0 ++ rest.0, rest.1)

  -- What a client reads of a stream that comes in these chunks.
  unfoldable pub encode : List Text → List SseEvent
  encode chunks = let fed = feed_all chunks encoder in fed.0 ++ finish fed.1
