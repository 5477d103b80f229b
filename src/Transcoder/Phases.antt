-- ===== src/Transcoder/Phases.antt =====
-- The order of events that Anthropic's protocol prescribes, as a machine that reads the events of
-- gateway/transcoder.py.
use ctrl_gateway.Prelude.{
  ℕ, ◌+◌, ◌≡◌, refl, ap, ◌∙◌, inl, inr, Option, none, some, List, [], ◌∷◌, ◌++◌, ◌==◌,
  if◌then◌else◌, Option-cases,
}
use ctrl_gateway.Transcoder.{
  SseEvent, message_start, text_start, tool_start, text_delta, input_delta, block_stop,
  message_delta, message_stop,
}

-- Where a reader is in a message: before it, between two blocks with the index of the next, in a block
-- of text or of a tool with its index, after the closing delta, and at the end.
pub data Phase : Type 0 where
  before after_delta ended : Phase
  between in_text in_tool : ℕ → Phase

abbrev pub advance : Phase → SseEvent → Option Phase
advance before (message_start m) = some (between 0)
advance before (text_start i) = none
advance before (tool_start i a b) = none
advance before (text_delta i t) = none
advance before (input_delta i t) = none
advance before (block_stop i) = none
advance before (message_delta r n) = none
advance before message_stop = none
advance (between k) (message_start m) = none
advance (between k) (text_start i) = if i == k then some (in_text k) else none
advance (between k) (tool_start i a b) = if i == k then some (in_tool k) else none
advance (between k) (text_delta i t) = none
advance (between k) (input_delta i t) = none
advance (between k) (block_stop i) = none
advance (between k) (message_delta r n) = some after_delta
advance (between k) message_stop = none
advance (in_text k) (message_start m) = none
advance (in_text k) (text_start i) = none
advance (in_text k) (tool_start i a b) = none
advance (in_text k) (text_delta i t) = if i == k then some (in_text k) else none
advance (in_text k) (input_delta i t) = none
advance (in_text k) (block_stop i) = if i == k then some (between (k + 1)) else none
advance (in_text k) (message_delta r n) = none
advance (in_text k) message_stop = none
advance (in_tool k) (message_start m) = none
advance (in_tool k) (text_start i) = none
advance (in_tool k) (tool_start i a b) = none
advance (in_tool k) (text_delta i t) = none
advance (in_tool k) (input_delta i t) = if i == k then some (in_tool k) else none
advance (in_tool k) (block_stop i) = if i == k then some (between (k + 1)) else none
advance (in_tool k) (message_delta r n) = none
advance (in_tool k) message_stop = none
advance after_delta message_stop = some ended
advance after_delta (message_start m) = none
advance after_delta (text_start i) = none
advance after_delta (tool_start i a b) = none
advance after_delta (text_delta i t) = none
advance after_delta (input_delta i t) = none
advance after_delta (block_stop i) = none
advance after_delta (message_delta r n) = none
advance ended e = none

-- Where the reader is after the events, when each is in its place.
abbrev pub read : Phase → List SseEvent → Option Phase
read p [] = some p
read p (e ∷ es) = elim (advance p e) [ none ↦ none | some p' ↦ read p' es ]

abbrev pub then_read : Option Phase → List SseEvent → Option Phase
then_read none es = none
then_read (some p) es = read p es

read-append : (p : Phase) (es fs : List SseEvent) → read p (es ++ fs) ≡ then_read (read p es) fs
read-append p [] fs = refl
read-append p (e ∷ es) fs = elim (Option-cases (advance p e)) [
  | inl n ↦ rw (n, read) refl
  | inr (p', n) ↦ rw (n, read) (read-append p' es fs)
]

pub read_both :
    (p q : Phase) (es fs : List SseEvent) (o : Option Phase)
    → read p es ≡ some q
    → read q fs ≡ o
    → read p (es ++ fs) ≡ o
read_both p q es fs o h k = read-append p es fs ∙ ap (λ r. then_read r fs) h ∙ k
