-- ===== src/Transcoder/Frames.antt =====
-- The chunks that gateway/transcoder.py's encoder is fed, and the frames that it makes of them.
use ctrl_gateway.Prelude.{ℕ, ◌≡◌, refl, sym, ap, ◌∙◌, Option, none, some, List, [], ◌∷◌, ◌++◌}
use ctrl_gateway.Prelude.Text.{Text}
use ctrl_gateway.Transcoder.{
  Choice, Payload, SseEvent, Encoder, encoder, take_usage, take_choice, begun, start_events,
  text_events, handle_payload, handle_payloads, split_frames, handle_frames, feed, close, finish,
  feed_all, encode,
}
use ctrl_gateway.Transcoder.Splits.{append_assoc, append_nil, split-append}

abbrev with_buffer : Text → List SseEvent × Encoder → List SseEvent × Encoder
with_buffer b (es, e) = (es, record e { buffer = b })

-- The payloads of a frame do not depend on the buffer, and leave it.
buffer-take_usage :
    (b : Text) (n : Option ℕ) (e : Encoder) (es : List SseEvent)
    → with_buffer b (es, take_usage n e) ≡ (es, take_usage n (record e { buffer = b }))
buffer-take_usage b none e es = refl
buffer-take_usage b (some n) e es = refl

handle_payload-buffer :
    (b : Text) (p : Payload) (e : Encoder)
    → handle_payload p (record e { buffer = b }) ≡ with_buffer b (handle_payload p e)
unfolding handle_payload
handle_payload-buffer b p e = by_choice p.choice
  where
    by_choice :
        (o : Option Choice)
        → elim o [
          | none ↦
              (start_events p e, take_usage p.completion_tokens (begun p (record e { buffer = b })))
          | some c ↦ (
            start_events p e ++ text_events c.content e.text_block_open,
            take_usage p.completion_tokens (take_choice c (begun p (record e { buffer = b }))),
          )
        ]
          ≡ with_buffer b (elim o [
            | none ↦ (start_events p e, take_usage p.completion_tokens (begun p e))
            | some c ↦ (
              start_events p e ++ text_events c.content e.text_block_open,
              take_usage p.completion_tokens (take_choice c (begun p e)),
            )
          ])
    by_choice none = sym (buffer-take_usage b p.completion_tokens (begun p e) _)
    by_choice (some c) = sym (buffer-take_usage b p.completion_tokens (take_choice c (begun p e)) _)

handle_payloads-buffer :
    (b : Text) (ps : List Payload) (e : Encoder)
    → handle_payloads ps (record e { buffer = b }) ≡ with_buffer b (handle_payloads ps e)
unfolding handle_payloads
handle_payloads-buffer b [] e = refl
handle_payloads-buffer b (p ∷ ps) e =
    ap (λ one. (one.0 ++ (handle_payloads ps one.1).0, (handle_payloads ps one.1).1))
      (handle_payload-buffer b p e)
    ∙ ap (λ r. ((handle_payload p e).0 ++ r.0, r.1))
        (handle_payloads-buffer b ps (handle_payload p e).1)

-- The bytes of the chunks together.
abbrev pub joined : List Text → Text
joined [] = []
joined (chunk ∷ chunks) = chunk ++ joined chunks

module _ (read_frame : Text → List Payload) (partial_json : Text → Text) where
  handle_frames-buffer :
      (b : Text) (fs : List Text) (e : Encoder)
      → handle_frames read_frame partial_json fs (record e { buffer = b })
        ≡ with_buffer b (handle_frames read_frame partial_json fs e)
  unfolding handle_frames
  handle_frames-buffer b [] e = refl
  handle_frames-buffer b (f ∷ fs) e =
      ap
        (λ one. (
          one.0 ++ (handle_frames read_frame partial_json fs one.1).0,
          (handle_frames read_frame partial_json fs one.1).1,
        ))
        (handle_payloads-buffer b (read_frame f) e)
      ∙ ap (λ r. ((handle_payloads (read_frame f) e).0 ++ r.0, r.1))
          (handle_frames-buffer b fs (handle_payloads (read_frame f) e).1)

  handle_frames-append :
      (fs gs : List Text) (e : Encoder)
      → handle_frames read_frame partial_json (fs ++ gs) e ≡ (
        (handle_frames read_frame partial_json fs e).0
            ++ (handle_frames read_frame partial_json gs
                (handle_frames read_frame partial_json fs e).1).0,
        (handle_frames read_frame partial_json gs (handle_frames read_frame partial_json fs e).1).1,
      )
  unfolding handle_frames
  handle_frames-append [] gs e = refl
  handle_frames-append (f ∷ fs) gs e =
      ap (λ r. ((handle_payloads (read_frame f) e).0 ++ r.0, r.1))
        (handle_frames-append fs gs (handle_payloads (read_frame f) e).1)
      ∙ ap
          (λ es. (
            es,
            (handle_frames read_frame partial_json gs
                (handle_frames read_frame partial_json fs
                  (handle_payloads (read_frame f) e).1).1).1,
          ))
          (sym (append_assoc (handle_payloads (read_frame f) e).0 _ _))

  abbrev handled : List Text × Text → Encoder → List SseEvent × Encoder
  handled (frames, left) e = with_buffer left (handle_frames read_frame partial_json frames e)

  feed-handled :
      (chunk : Text) (e : Encoder)
      → feed read_frame partial_json chunk e ≡ handled (split_frames (e.buffer ++ chunk)) e
  unfolding feed
  feed-handled chunk e =
      handle_frames-buffer (split_frames (e.buffer ++ chunk)).1 (split_frames (e.buffer ++ chunk)).0
        e

  abbrev then_feed : List SseEvent × Encoder → Text → List SseEvent × Encoder
  then_feed (es, e) chunk = let two = feed read_frame partial_json chunk e in (es ++ two.0, two.1)

  handled-both :
      (f g : List Text × Text) (e : Encoder)
      → handled (f.0 ++ g.0, g.1) e
        ≡ ((handled f e).0 ++ (handled g (handled f e).1).0, (handled g (handled f e).1).1)
  handled-both f g e =
      ap (with_buffer g.1) (handle_frames-append f.0 g.0 e)
      ∙ ap
          (λ r.
            ((handle_frames read_frame partial_json f.0 e).0 ++ r.0, record r.1 { buffer = g.1 }))
          (sym (handle_frames-buffer f.1 g.0 (handle_frames read_frame partial_json f.0 e).1))

  feed-append :
      (a b : Text) (e : Encoder)
      → feed read_frame partial_json (a ++ b) e ≡ then_feed (feed read_frame partial_json a e) b
  feed-append a b e =
      let f = split_frames (e.buffer ++ a) in
      feed-handled (a ++ b) e
      ∙ ap (λ x. handled (split_frames x) e) (sym (append_assoc e.buffer a b))
      ∙ ap (λ r. handled r e) (split-append (e.buffer ++ a) b)
      ∙ handled-both f (split_frames (f.1 ++ b)) e
      ∙ ap (λ two. ((handled f e).0 ++ two.0, two.1)) (sym (feed-handled b (handled f e).1))
      ∙ ap (λ one. then_feed one b) (sym (feed-handled a e))

  feed_all-joined :
      (chunk : Text) (chunks : List Text) (e : Encoder)
      → feed_all read_frame partial_json (chunk ∷ chunks) e
        ≡ feed read_frame partial_json (joined (chunk ∷ chunks)) e
  unfolding feed_all
  feed_all-joined chunk [] e =
      ap (λ es. (es, (feed read_frame partial_json chunk e).1))
        (append_nil (feed read_frame partial_json chunk e).0)
      ∙ ap (λ c. feed read_frame partial_json c e) (sym (append_nil chunk))
  feed_all-joined chunk (next ∷ chunks) e =
      ap (λ r. ((feed read_frame partial_json chunk e).0 ++ r.0, r.1))
        (feed_all-joined next chunks (feed read_frame partial_json chunk e).1)
      ∙ sym (feed-append chunk (joined (next ∷ chunks)) e)

  nothing_fed : encode read_frame partial_json [] ≡ encode read_frame partial_json ([] ∷ [])
  unfolding encode feed_all feed finish handle_frames close split_frames
  nothing_fed = refl

  -- What a stream is encoded to does not depend on where its bytes are cut into chunks: it is what one
  -- chunk of all the bytes is encoded to.
  pub encode-joined :
      (chunks : List Text)
      → encode read_frame partial_json chunks ≡ encode read_frame partial_json (joined chunks ∷ [])
  unfolding encode
  encode-joined [] = nothing_fed
  encode-joined (chunk ∷ chunks) =
      ap (λ fed. fed.0 ++ finish read_frame partial_json fed.1)
        (feed_all-joined chunk chunks encoder
          ∙ ap (λ c. feed read_frame partial_json c encoder)
              (sym (append_nil (joined (chunk ∷ chunks))))
          ∙ sym (feed_all-joined (joined (chunk ∷ chunks)) [] encoder))
