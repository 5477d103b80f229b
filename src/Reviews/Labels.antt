-- ===== src/Reviews/Labels.antt =====
-- The labels of a review: `_valid_labels` of gateway/reviewer.py, and `store_review_result` of
-- gateway/memory.py, which decides what the trainer learns from. Confidences are thousandths and
-- trust scores six-thousandths, so that the share of six fields is exact.
use ctrl_gateway.Prelude.{
  ℕ, ◌+◌, ◌*◌, Bool, not, ◌&&◌, ◌||◌, Option, none, some, String, leb, ◌==◌, str_eq, max,
  if◌then◌else◌,
}

-- What JSON gives for a field: a list or an object is unhashable; null, floats and negative numbers
-- are `other`.
pub data Value : Type 0 where
  missing other unhashable : Value
  flag : Bool → Value
  number : ℕ → Value
  word : String → Value

pub data Answer : Type 0 where
  not_an_object : Answer
  answer : Value → Value → Value → Value → Value → Value → Answer

pub record Labels : Type 0 where
  pub vertical : String
  pub complexity : ℕ
  pub code : Bool
  pub math : Bool
  pub reasoning : Bool
  pub long_output : Bool

-- The test of the labels: it raises when the vertical is a list or an object, which no set can hold.
pub data Verdict : Type 0 where
  type_error refused : Verdict
  valid : Labels → Verdict

abbrev pub to_flag : Value → Option Bool
to_flag missing = none
to_flag other = none
to_flag unhashable = none
to_flag (flag b) = some b
to_flag (number n) = none
to_flag (word s) = none

unfoldable pub valid_flags :
    String → ℕ → Option Bool → Option Bool → Option Bool → Option Bool → Verdict
valid_flags v c (some code) (some math) (some reasoning) (some long_output) = valid (record {
  vertical = v;
  complexity = c;
  code = code;
  math = math;
  reasoning = reasoning;
  long_output = long_output;
})
valid_flags v c none math reasoning long_output = refused
valid_flags v c (some code) none reasoning long_output = refused
valid_flags v c (some code) (some math) none long_output = refused
valid_flags v c (some code) (some math) (some reasoning) none = refused

abbrev pub valid_complexity : String → Value → Value → Value → Value → Value → Verdict
valid_complexity v missing a b c d = refused
valid_complexity v other a b c d = refused
valid_complexity v unhashable a b c d = refused
valid_complexity v (flag x) a b c d = refused
valid_complexity v (word s) a b c d = refused
valid_complexity v (number n) a b c d =
    if leb 1 n && leb n 5
    then valid_flags v n (to_flag a) (to_flag b) (to_flag c) (to_flag d)
    else refused

-- `_valid_labels`
unfoldable pub valid_labels : (String → Bool) → Answer → Verdict
valid_labels verticals not_an_object = refused
valid_labels verticals (answer missing n a b c d) = refused
valid_labels verticals (answer other n a b c d) = refused
valid_labels verticals (answer unhashable n a b c d) = type_error
valid_labels verticals (answer (flag x) n a b c d) = refused
valid_labels verticals (answer (number k) n a b c d) = refused
valid_labels verticals (answer (word v) n a b c d) =
    if verticals v then valid_complexity v n a b c d else refused

abbrev pub agrees : Bool → Bool → Bool
agrees a b = if a then b else not b

abbrev pub one : Bool → ℕ
one b = if b then 1 else 0

-- `sum(1 for v in agreement.values() if v)`
unfoldable pub agree_count : Labels → Labels → ℕ
agree_count l r =
    one (str_eq l.vertical r.vertical)
    + one (l.complexity == r.complexity)
    + one (agrees l.code r.code)
    + one (agrees l.math r.math)
    + one (agrees l.reasoning r.reasoning)
    + one (agrees l.long_output r.long_output)

unfoldable pub all_fields_agree : Labels → Labels → Bool
all_fields_agree l r =
    str_eq l.vertical r.vertical
    && l.complexity == r.complexity
    && agrees l.code r.code
    && agrees l.math r.math
    && agrees l.reasoning r.reasoning
    && agrees l.long_output r.long_output

pub record ReviewResult : Type 0 where
  pub decision_id : ℕ
  pub labels : Labels
  pub truncated : Bool
  pub all_agree : Bool
  pub trust_score : ℕ

pub data Source : Type 0 where
  human_reviewed flywheel : Source

pub record CuratedSample : Type 0 where
  pub decision_id : ℕ
  pub labels : Labels
  pub trust_score : ℕ
  pub source : Source

-- `store_review_result`, after the test of the labels; the router's labels are those that the gateway
-- logs with a decision. The row of the review, and that of the pool of the trainer.
unfoldable pub store_review_result :
    (has_decision human_correction : ℕ → Bool) (decision_id : ℕ) (labels router_labels : Labels)
    (truncated : Bool) (confidence min_trust : ℕ)
    → ReviewResult × Option CuratedSample
store_review_result has_decision human_correction decision_id labels router_labels truncated
      confidence min_trust =
    let all_agree = all_fields_agree labels router_labels in
    let trust = agree_count labels router_labels * confidence in
    let human = human_correction decision_id in
    let curate_trust = if human then max trust 4800 else trust in
    let sample =
      if ((all_agree && leb (6 * min_trust) trust) || human) && not truncated
      then (if has_decision decision_id
          then some (record {
            decision_id = decision_id;
            labels = labels;
            trust_score = curate_trust;
            source = if human then human_reviewed else flywheel;
          })
          else none)
      else none in
    (
      record {
        decision_id = decision_id;
        labels = labels;
        truncated = truncated;
        all_agree = all_agree;
        trust_score =
            if ((all_agree && leb (6 * min_trust) trust) || human)
              && not truncated
              && has_decision decision_id
            then curate_trust
            else trust;
      },
      sample,
    )
