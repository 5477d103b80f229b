-- ===== src/Reviews.antt =====
-- The review queue: the table of gateway/memory.py, and the batches of the worker of
-- gateway/reviewer.py. Times are seconds. The reviewer's answer is given as what `_parse_labels` finds
-- in it, and `Label` is whatever it gives for a prompt.
mod Order
mod Batches
mod Leftovers
mod Labels
mod Trust
mod Tests
use ctrl_gateway.Prelude.{
  ℕ, zero, suc, ◌+◌, ◌-◌, ◌*◌, Bool, true, false, not, ◌&&◌, ◌||◌, Option, none, some, List, [],
  ◌∷◌, ◌++◌, map, ltb, leb, ◌==◌, max, any, all, keep, take, length, if◌then◌else◌,
}

pub data Status : Type 0 where
  pending in_progress done failed : Status

pub data ReviewError : Type 0 where
  decision_not_found per_request_cap ssrf_blocked http_status parse_error timeout exception
        invalid_labels persist_error requeued_stale :
      ReviewError

pub record QueueRow : Type 0 where
  pub id : ℕ
  pub ts_queued : ℕ
  pub decision_id : ℕ
  pub priority : ℕ
  pub status : Status
  pub attempts : ℕ
  pub started_at : Option ℕ
  pub last_error : Option ReviewError
  pub has_prompt : Bool

abbrev pub is_pending : QueueRow → Bool
is_pending r = elim r.status [
  | pending ↦ true
  | in_progress ↦ false
  | done ↦ false
  | failed ↦ false
]

abbrev pub is_in_progress : QueueRow → Bool
is_in_progress r = elim r.status [
  | pending ↦ false
  | in_progress ↦ true
  | done ↦ false
  | failed ↦ false
]

-- `enqueue_review`
pub enqueue_review : ℕ → ℕ → ℕ → ℕ → Bool → List QueueRow → List QueueRow
enqueue_review id now decision priority prompt q =
    q
    ++ (record {
      id = id;
      ts_queued = now;
      decision_id = decision;
      priority = priority;
      status = pending;
      attempts = 0;
      started_at = none;
      last_error = none;
      has_prompt = prompt;
    }
        ∷ [])

-- `enqueue_for_review`: the depth is what `_pending_review_count` says, which may be ten seconds old.
pub enqueue_for_review : ℕ → ℕ → ℕ → ℕ → ℕ → Bool → List QueueRow → List QueueRow
enqueue_for_review max_depth depth id now decision prompt q =
    if ltb 0 max_depth && leb max_depth depth then q else enqueue_review id now decision 0 prompt q

-- `ORDER BY priority DESC, ts_queued ASC`: the first row is taken before the second.
pub comes_before : QueueRow → QueueRow → Bool
comes_before a b =
    ltb b.priority a.priority || (a.priority == b.priority && leb a.ts_queued b.ts_queued)

pub first_pending : List QueueRow → Option QueueRow
first_pending [] = none
first_pending (r ∷ rs) =
    if is_pending r
    then elim (first_pending rs) [
      | none ↦ some r
      | some b ↦ if comes_before r b then some r else some b
    ]
    else first_pending rs

-- `UPDATE review_queue SET … WHERE id = …`
pub update_row : ℕ → (QueueRow → QueueRow) → List QueueRow → List QueueRow
update_row id f q = map (λ r. if r.id == id then f r else r) q

abbrev pub started : ℕ → QueueRow → QueueRow
started now r = record r { status = in_progress; attempts = r.attempts + 1; started_at = some now }

-- `dequeue_review`
pub dequeue_review : ℕ → List QueueRow → Option (QueueRow × List QueueRow)
dequeue_review now q = elim (first_pending q) [
  | none ↦ none
  | some r ↦ some (r, update_row r.id (started now) q)
]

abbrev pub completed : Status → Option ReviewError → QueueRow → QueueRow
completed status error r = record r {
  status = status;
  last_error = error;
  has_prompt = false;
  started_at = none;
}

-- `complete_review`
pub complete_review : ℕ → Status → Option ReviewError → List QueueRow → List QueueRow
complete_review id status error q = update_row id (completed status error) q

abbrev pub is_stale : ℕ → QueueRow → Bool
is_stale cutoff r = is_in_progress r && elim r.started_at [ none ↦ false | some t ↦ ltb t cutoff ]

-- `requeue_stale_reviews`
pub requeue_stale_reviews : ℕ → ℕ → List QueueRow → List QueueRow
requeue_stale_reviews now stale_after q =
    map
      (λ r.
        if is_stale (now - stale_after) r
        then record r { status = pending; last_error = some requeued_stale; started_at = none }
        else r)
      q

-- The loop of `_tick` that takes at most `n` items.
pub take_items : ℕ → ℕ → List QueueRow → List QueueRow × List QueueRow
take_items zero now q = ([], q)
take_items (suc n) now q = elim (dequeue_review now q) [
  | none ↦ ([], q)
  | some (r, q') ↦ let rest = take_items n now q' in (r ∷ rest.0, rest.1)
]

-- `for it in items: memory.complete_review(it["id"], status="failed", error=…)`
pub fail_all : List QueueRow → ReviewError → List QueueRow → List QueueRow
fail_all [] error q = q
fail_all (r ∷ rs) error q = fail_all rs error (complete_review r.id failed (some error) q)

-- What `json.loads` makes of the answer's text, or of the fenced array in it.
pub data Content (L : Type 0) : Type 0 where
  labels : List L → Content L
  no_array : Content L
  fenced : List L → Content L
  garbage : Content L

pub pad {ℓ} : {L : Type ℓ} → L → ℕ → List L → List L
pad empty zero ls = []
pad empty (suc n) [] = empty ∷ pad empty n []
pad empty (suc n) (l ∷ ls) = l ∷ pad empty n ls

-- `_parse_labels`
pub parse_labels : {L : Type 0} → L → Content L → ℕ → Option (List L)
parse_labels empty (labels ls) n = some (pad empty n ls)
parse_labels empty no_array n = none
parse_labels empty (fenced ls) n = some ls
parse_labels empty garbage n = none

-- How the request to the reviewer ends.
pub data Reply (L : Type 0) : Type 0 where
  over_cap blocked bad_status timed_out raised : Reply L
  answered : Content L → Reply L

-- What becomes of an item whose labels are tested: the result is stored, or the item fails.
abbrev pub stored :
    {L : Type 0} → (ℕ → L → Bool) → Bool → L → QueueRow → List QueueRow → List QueueRow
stored stores valid l r q =
    if not valid
    then complete_review r.id failed (some invalid_labels) q
    else if stores r.decision_id l
    then complete_review r.id done none q
    else complete_review r.id failed (some persist_error) q

module _ {L : Type 0} (empty : L) (is_valid : L → Option Bool) (stores : ℕ → L → Bool)
    (has_decision : ℕ → Bool) where
  -- The loop that persists the labels; the items are those whose decision was found. A test of the
  -- labels that raises leaves the rest of the batch.
  pub persist : List L → List QueueRow → List QueueRow → List QueueRow
  persist [] items q = q
  persist (l ∷ ls) [] q = q
  persist (l ∷ ls) (r ∷ rs) q = elim (is_valid l) [
    | none ↦ q
    | some valid ↦ persist ls rs (stored stores valid l r q)
  ]

  -- The items whose decision is gone fail at once.
  pub drop_unknown : List QueueRow → List QueueRow → List QueueRow
  drop_unknown [] q = q
  drop_unknown (r ∷ rs) q = drop_unknown rs (
      if has_decision r.decision_id
      then q
      else complete_review r.id failed (some decision_not_found) q)

  abbrev pub known : List QueueRow → List QueueRow
  known items = keep (λ r. has_decision r.decision_id) items

  pub settle : List QueueRow → Reply L → List QueueRow → List QueueRow
  settle items over_cap q = fail_all items per_request_cap q
  settle items blocked q = fail_all items ssrf_blocked q
  settle items bad_status q = fail_all items http_status q
  settle items timed_out q = fail_all items timeout q
  settle items raised q = fail_all items exception q
  settle items (answered content) q = elim (parse_labels empty content (length (known items))) [
    | none ↦ fail_all items parse_error q
    | some ls ↦ persist ls (known items) q
  ]

  abbrev pub none_known : List QueueRow → Bool
  none_known items = elim (known items) [ [] ↦ true | _ ∷ _ ↦ false ]

  -- `_process_batch`
  pub process_batch : List QueueRow → Reply L → List QueueRow → List QueueRow
  process_batch items reply q =
      let q' = drop_unknown items q in if none_known items then q' else settle items reply q'
