-- ===== src/Reviews/Tests.antt =====
-- A small queue and answers of the reviewer, and the theorems at inputs where their hypotheses hold.
use ctrl_gateway.Prelude.{
  ℕ, ◌+◌, ◌≡◌, refl, arith, Bool, true, false, not, String, Option, none, some, List, [], ◌∷◌, map,
  here, ◌==◌, str_eq, OnSome,
}
use ctrl_gateway.Reviews.{
  Status, pending, in_progress, done, failed, QueueRow, enqueue_review, enqueue_for_review,
  comes_before, first_pending, update_row, dequeue_review, complete_review, requeue_stale_reviews,
  take_items, fail_all, Reply, answered, labels, fenced, pad, parse_labels, persist, drop_unknown,
  settle, process_batch,
}
use ctrl_gateway.Reviews.Labels.{
  Answer, not_an_object, answer, word, number, flag, unhashable, Labels, type_error, refused, valid,
  valid_flags, valid_labels, agree_count, all_fields_agree, store_review_result,
}
use ctrl_gateway.Reviews.Order.{IsNext, dequeue_review-IsNext}
use ctrl_gateway.Reviews.Batches.{settles, batch_settles}
use ctrl_gateway.Reviews.Trust.{OnValid, IsTyped, valid_labels-IsTyped, IsEarned, curated-IsEarned}

program : Unit {0}
unfolding enqueue_review enqueue_for_review comes_before first_pending update_row dequeue_review
    complete_review requeue_stale_reviews take_items fail_all pad parse_labels persist drop_unknown
    settle process_batch valid_flags valid_labels agree_count all_fields_agree store_review_result
program = tt

abbrev row : ℕ → ℕ → ℕ → Status → QueueRow
row id ts priority status = record {
  id = id;
  ts_queued = ts;
  decision_id = 100 + id;
  priority = priority;
  status = status;
  attempts = 0;
  started_at = none;
  last_error = none;
  has_prompt = true;
}

abbrev queue : List QueueRow
queue = row 1 10 0 pending ∷ row 2 11 5 pending ∷ row 3 9 5 pending ∷ row 4 1 9 done ∷ []

abbrev statuses : List QueueRow → List Status
statuses q = map (λ r. r.status) q

taken : map (λ r. r.id) (take_items 2 50 queue).0 ≡ 3 ∷ 2 ∷ []
unfolding program
taken = refl

requeued :
    statuses (requeue_stale_reviews 700 600 (take_items 2 50 queue).1)
    ≡ pending ∷ pending ∷ pending ∷ done ∷ []
unfolding program
requeued = refl

dropped_when_full : enqueue_for_review 4 4 5 60 105 true queue ≡ queue
unfolding program
dropped_when_full = refl

abbrev verticals : String → Bool
verticals v = str_eq v "law"

abbrev good : Answer
good = answer (word "law") (number 3) (flag true) (flag false) (flag false) (flag false)

abbrev test : Answer → Option Bool
test a = elim (valid_labels verticals a) [
  | type_error ↦ none
  | refused ↦ some false
  | valid l ↦ some true
]

abbrev stores : ℕ → Answer → Bool
stores id a = true

abbrev has_decision : ℕ → Bool
has_decision id = not (id == 102)

abbrev batch : Reply Answer → List QueueRow
batch reply =
    let t = take_items 3 50 queue in
    process_batch not_an_object test stores has_decision t.0 reply t.1

all_settled : statuses (batch (answered (labels (good ∷ [])))) ≡ failed ∷ failed ∷ done ∷ done ∷ []
unfolding program
all_settled = refl

-- A fenced array that is too short leaves the last item in progress, to be taken again later.
left_in_progress :
    statuses (batch (answered (fenced (good ∷ [])))) ≡ in_progress ∷ failed ∷ done ∷ done ∷ []
unfolding program
left_in_progress = refl

-- A vertical that is a list makes the test raise, and the whole batch stays in progress.
raise_leaves_all :
    statuses (
      batch (
        answered (
          labels (
            answer unhashable (number 3) (flag true) (flag true) (flag true) (flag true)
            ∷ good
            ∷ []))))
    ≡ in_progress ∷ failed ∷ in_progress ∷ done ∷ []
unfolding program
raise_leaves_all = refl

dequeue_review-IsNext_example : IsNext 50 queue (dequeue_review 50 queue)
dequeue_review-IsNext_example = dequeue_review-IsNext 50 queue

batch_settles_example :
    settles 1 (
      process_batch not_an_object test stores has_decision queue
        (answered (fenced (good ∷ good ∷ not_an_object ∷ [])))
        queue)
    ≡ true
unfolding program
batch_settles_example =
    batch_settles not_an_object test stores has_decision queue
      (answered (fenced (good ∷ good ∷ not_an_object ∷ []))) (row 1 10 0 pending) queue (here refl)
      (omega arith, refl)

valid_labels-IsTyped_example : OnValid (IsTyped verticals good) (valid_labels verticals good)
valid_labels-IsTyped_example = valid_labels-IsTyped verticals good

abbrev law : Labels
law = record {
  vertical = "law";
  complexity = 3;
  code = true;
  math = false;
  reasoning = false;
  long_output = false;
}

curated-IsEarned_example :
    OnSome
      (λ c.
        (false ≡ false)
        × (c.decision_id ≡ 101)
        × (c.labels ≡ law)
        × IsEarned false law law 700 300 c)
      (store_review_result has_decision (λ id. false) 101 law law false 700 300).1
curated-IsEarned_example = curated-IsEarned has_decision (λ id. false) 101 law law false 700 300
