-- ===== src/Transcoder/Protocol.antt =====
-- The events that the encoder of gateway/transcoder.py writes, against the order that Anthropic's
-- protocol prescribes, as a machine that reads them.
use ctrl_gateway.Prelude.{
  ℕ, ◌+◌, ◌≡◌, refl, ◌∙◌, ◌⊎◌, inl, inr, Bool, true, false, not, ◌&&◌, ◌||◌, Option, none, some,
  List, [], ◌∷◌, ◌++◌, arith, ◌==◌, all, if◌then◌else◌, Bool-cases,
}
use ctrl_gateway.Prelude.Text.{Text}
use ctrl_gateway.Transcoder.{
  Choice, Payload, Slot, SseEvent, message_start, Encoder, encoder, is_blank, or_text,
  is_ascii_space, start_events, text_events, take_choice, begun, take_usage, handle_payload,
  handle_payloads, split_frames, sorted, handle_frames, feed, tool_blocks, close, finish, feed_all,
  encode,
}
use ctrl_gateway.Transcoder.Phases.{Phase, before, between, in_text, ended, read, read_both}

-- Where the reader is after what an encoder has written, by whether it has begun and has a block of
-- text open.
abbrev phase : Bool → Bool → Phase
phase started is_open = if started then (if is_open then in_text 0 else between 0) else before

abbrev phase_of : Encoder → Phase
phase_of e = phase e.started e.text_block_open

abbrev IsOrdered : Encoder → Type 0
IsOrdered e = (not e.started && e.text_block_open) ≡ false

reading_text :
    (m content : Text) (started is_open : Bool)
    → (not started && is_open) ≡ false
    → read
        (phase started is_open)
        ((if started then [] else message_start m ∷ []) ++ text_events content is_open)
      ≡ some (phase true (is_open || not (is_blank content)))
reading_text m [] true true h = refl
reading_text m [] true false h = refl
reading_text m [] false false h = refl
reading_text m (c ∷ t) true true h = refl
reading_text m (c ∷ t) true false h = refl
reading_text m (c ∷ t) false false h = refl
reading_text m content false true h = absurd (ground (arith, h))

reading_start :
    (m : Text) (started is_open : Bool)
    → (not started && is_open) ≡ false
    → read (phase started is_open) (if started then [] else message_start m ∷ [])
      ≡ some (phase true is_open)
reading_start m true is_open h = refl
reading_start m false false h = refl
reading_start m false true h = absurd (ground (arith, h))

-- Events that take the reader from what one encoder has written to what another has.
abbrev IsRead : Encoder → List SseEvent × Encoder → Type 0
IsRead e (es, e') = (read (phase_of e) es ≡ some (phase_of e')) × IsOrdered e'

take_usage-IsRead :
    (n : Option ℕ) (e e' : Encoder) (es : List SseEvent)
    → IsRead e (es, e')
    → IsRead e (es, take_usage n e')
take_usage-IsRead none e e' es h = h
take_usage-IsRead (some n) e e' es h = h

handle_payload-IsRead : (p : Payload) (e : Encoder) → IsOrdered e → IsRead e (handle_payload p e)
unfolding handle_payload
handle_payload-IsRead p e h = by_choice p.choice
  where
    by_choice :
        (o : Option Choice)
        → IsRead e (elim o [
          | none ↦ (start_events p e, take_usage p.completion_tokens (begun p e))
          | some c ↦ (
            start_events p e ++ text_events c.content e.text_block_open,
            take_usage p.completion_tokens (take_choice c (begun p e)),
          )
        ])
    by_choice none =
        take_usage-IsRead p.completion_tokens e (begun p e) _
          (reading_start (or_text p.model e.model) e.started e.text_block_open h, refl)
    by_choice (some c) =
        take_usage-IsRead p.completion_tokens e (take_choice c (begun p e)) _
          (reading_text (or_text p.model e.model) c.content e.started e.text_block_open h, refl)

handle_payloads-IsRead :
    (ps : List Payload) (e : Encoder) → IsOrdered e → IsRead e (handle_payloads ps e)
unfolding handle_payloads
handle_payloads-IsRead [] e h = (refl, h)
handle_payloads-IsRead (p ∷ ps) e h =
    let one = handle_payload-IsRead p e h in
    let rest = handle_payloads-IsRead ps (handle_payload p e).1 one.1 in
    (read_both _ _ (handle_payload p e).0 _ _ one.0 rest.0, rest.1)

same : (n : ℕ) → (n == n) ≡ true
same n = ground arith

module _ (read_frame : Text → List Payload) (partial_json : Text → Text) where
  handle_frames-IsRead :
      (fs : List Text) (e : Encoder)
      → IsOrdered e
      → IsRead e (handle_frames read_frame partial_json fs e)
  unfolding handle_frames
  handle_frames-IsRead [] e h = (refl, h)
  handle_frames-IsRead (f ∷ fs) e h =
      let one = handle_payloads-IsRead (read_frame f) e h in
      let rest = handle_frames-IsRead fs (handle_payloads (read_frame f) e).1 one.1 in
      (read_both _ _ (handle_payloads (read_frame f) e).0 _ _ one.0 rest.0, rest.1)

  feed-IsRead :
      (chunk : Text) (e : Encoder) → IsOrdered e → IsRead e (feed read_frame partial_json chunk e)
  unfolding feed
  feed-IsRead chunk e h =
      handle_frames-IsRead (split_frames (e.buffer ++ chunk)).0
        (record e { buffer = (split_frames (e.buffer ++ chunk)).1 }) h

  feed_all-IsRead :
      (chunks : List Text) (e : Encoder)
      → IsOrdered e
      → IsRead e (feed_all read_frame partial_json chunks e)
  unfolding feed_all
  feed_all-IsRead [] e h = (refl, h)
  feed_all-IsRead (chunk ∷ chunks) e h =
      let one = feed-IsRead chunk e h in
      let rest = feed_all-IsRead chunks (feed read_frame partial_json chunk e).1 one.1 in
      (read_both _ _ (feed read_frame partial_json chunk e).0 _ _ one.0 rest.0, rest.1)

  read-tool_blocks :
      (n : ℕ) (calls : List (ℕ × Slot)) (fs : List SseEvent)
      → (k : ℕ) × (read (between n) (tool_blocks read_frame partial_json n calls ++ fs)
          ≡ read (between k) fs)
  unfolding tool_blocks
  read-tool_blocks n [] fs = (n, refl)
  read-tool_blocks n ((i, s) ∷ calls) fs =
      let (k, h) = read-tool_blocks (n + 1) calls fs in
      (k, rw (same n, read) (rw (same n, read) (rw (same n, read) h)))

  last_events :
      (n : ℕ) (calls : List (ℕ × Slot)) (fs : List SseEvent)
      → ((k : ℕ) → read (between k) fs ≡ some ended)
      → read (between n) (tool_blocks read_frame partial_json n calls ++ fs) ≡ some ended
  last_events n calls fs h = let (k, e) = read-tool_blocks n calls fs in e ∙ h k

  -- The reader is at the end of a message, or still before it.
  abbrev IsWhole : Phase → List SseEvent → Type 0
  IsWhole p es = (read p es ≡ some ended) ⊎ (read p es ≡ some before)

  closing : (e : Encoder) → IsWhole (phase_of e) (close read_frame partial_json e)
  unfolding close
  closing e = elim (Bool-cases e.started) [
    | inr k ↦ inr (rw k refl)
    | inl k ↦ elim (Bool-cases e.text_block_open) [
      | inl o ↦ inl (rw (k, o) (last_events 1 (sorted e.tool_calls) _ (λ n. refl)))
      | inr o ↦ inl (rw (k, o) (last_events 0 (sorted e.tool_calls) _ (λ n. refl)))
    ]
  ]

  after_read :
      (p q : Phase) (es fs : List SseEvent)
      → read p es ≡ some q
      → IsWhole q fs
      → IsWhole p (es ++ fs)
  after_read p q es fs h (inl k) = inl (read_both p q es fs _ h k)
  after_read p q es fs h (inr k) = inr (read_both p q es fs _ h k)

  finishing : (e : Encoder) → IsOrdered e → IsWhole (phase_of e) (finish read_frame partial_json e)
  unfolding finish
  finishing e h = elim (Bool-cases (all is_ascii_space e.buffer)) [
    | inl k ↦ rw k (closing e)
    | inr k ↦
        let last = handle_payloads (read_frame e.buffer) (record e { buffer = [] }) in
        rw k (
          after_read (phase_of e) (phase_of last.1) last.0 (close read_frame partial_json last.1)
            (handle_payloads-IsRead (read_frame e.buffer) (record e { buffer = [] }) h).0
            (closing last.1))
  ]

  -- However the chunks of a stream are cut and whatever payloads their frames hold, the events written
  -- are in the order of the protocol: a start, blocks with consecutive indices from zero, each opened,
  -- filled and closed before the next, one closing delta and the stop; or nothing has begun.
  pub encode-IsWhole :
      (chunks : List Text)
      → (read before (encode read_frame partial_json chunks) ≡ some ended)
        ⊎ (read before (encode read_frame partial_json chunks) ≡ some before)
  unfolding encode
  encode-IsWhole chunks =
      let fed = feed_all read_frame partial_json chunks encoder in
      let reading = feed_all-IsRead chunks encoder refl in
      after_read before (phase_of fed.1) fed.0 (finish read_frame partial_json fed.1) reading.0
        (finishing fed.1 reading.1)
