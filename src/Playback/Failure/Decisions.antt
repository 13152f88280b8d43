-- ===== src/Playback/Failure/Decisions.antt =====
-- core/aurorix-playback/src/failure.rs: the decisions on failures, skips and stops.
use aurorix_music.Prelude.{
  ℕ, zero, suc, ◌+◌, ◌≤◌, ◌≡◌, [], ◌∷◌, ◌++◌, ◌≢◌, ◌∙◌, refl, Bool, true, false, Option, none, some,
  List, arith, inl, inr, Bool-cases, Option-cases, get_elem?, length, length-append, if◌then◌else◌,
  ap,
}
use aurorix_music.Prelude.Exec.{ok, err}
use aurorix_music.Prelude.Text.{text_eq, text_eq_iff}
use aurorix_music.Playback.Command.{PlaybackItemId}
use aurorix_music.Playback.Shuffle.Order.{get_elem?-some-lt}
use aurorix_music.Playback.Failure.{
  PlaybackFailure, FailurePolicy, FailureDecision, QueueAction, Decision, continue_with, stop_queue,
  skip_item, stop_item, decide, next_action, validate_current_item, current_item_mismatch,
  current_index_out_of_bounds, continues_after, EndReason, error, skipped, stopped,
}

-- The three methods, with what they are asked.
pub data Ending : Type 0 where
  fails : PlaybackFailure → Ending
  skips stops : Ending

unfoldable pub settle : Ending → PlaybackItemId → List PlaybackItemId → ℕ → FailurePolicy → Decision
settle (fails f) item queue i p = decide f item queue i p
settle skips item queue i p = skip_item item queue i p
settle stops item queue i p = stop_item item queue i p

abbrev pub failure_of : Ending → PlaybackFailure
failure_of (fails f) = f
failure_of skips = PlaybackFailure.skip
failure_of stops = PlaybackFailure.stop

abbrev pub reason_of : Ending → EndReason
reason_of (fails f) = error
reason_of skips = skipped
reason_of stops = stopped

-- A skip goes on, a stop does not, and a failure goes on as the policy says.
abbrev pub goes_on : Ending → FailurePolicy → Bool
goes_on (fails f) p = continues_after p f
goes_on skips p = true
goes_on stops p = false

-- Where the queue goes on it goes on with the next item, or is exhausted if there is none; else it stops.
abbrev pub Follows : Bool → List PlaybackItemId → ℕ → QueueAction → Type 0
Follows on queue i (continue_with item j) =
    (on ≡ true) × (j ≡ i + 1) × (get_elem? queue j ≡ some item)
Follows on queue i (stop_queue true) = (on ≡ true) × (length queue ≤ i + 1)
Follows on queue i (stop_queue false) = on ≡ false

abbrev pub Settles :
    Ending → FailurePolicy → PlaybackItemId → List PlaybackItemId → ℕ → Decision → Type 0
Settles e p item queue i (ok d) =
    (get_elem? queue i ≡ some item)
    × (d.failed_item ≡ item)
    × (d.failure ≡ failure_of e)
    × (d.end_reason ≡ reason_of e)
    × (d.preserved ≡ true)
    × Follows (goes_on e p) queue i d.queue_action
Settles e p item queue i (err current_index_out_of_bounds) = length queue ≤ i
Settles e p item queue i (err current_item_mismatch) =
    (queued : PlaybackItemId) × (get_elem? queue i ≡ some queued) × (queued ≢ item)

get_elem?-none-le : {A : Type 0} (xs : List A) (i : ℕ) → get_elem? xs i ≡ none → length xs ≤ i
get_elem?-none-le [] i h = omega arith
get_elem?-none-le (x ∷ xs) zero h = cc
get_elem?-none-le (x ∷ xs) (suc i) h = omega (arith, get_elem?-none-le xs i h)

next_action-Follows :
    (queue : List PlaybackItemId) (i : ℕ) → Follows true queue i (next_action queue i)
unfolding next_action
next_action-Follows queue i = elim (Option-cases (get_elem? queue (i + 1))) [
  | inl e ↦ rw (e, next_action) (refl, get_elem?-none-le queue (i + 1) e)
  | inr (item, e) ↦ rw (e, next_action) (refl, refl, e)
]

continued-Follows :
    (queue : List PlaybackItemId) (i : ℕ) (b : Bool)
    → Follows b queue i (if b then next_action queue i else stop_queue false)
continued-Follows queue i true = next_action-Follows queue i
continued-Follows queue i false = refl

validated-Settles :
    (e : Ending) (p : FailurePolicy) (item : PlaybackItemId) (queue : List PlaybackItemId) (i : ℕ)
    (d : FailureDecision)
    → d.failed_item ≡ item
    → d.failure ≡ failure_of e
    → d.end_reason ≡ reason_of e
    → d.preserved ≡ true
    → Follows (goes_on e p) queue i d.queue_action
    → Settles e p item queue i (validate_current_item item queue i d)
unfolding validate_current_item
validated-Settles e p item queue i d same failure reason kept f =
    elim (Option-cases (get_elem? queue i)) [
      | inl none_there ↦
          rw (none_there, validate_current_item) (get_elem?-none-le queue i none_there)
      | inr (queued, there) ↦ elim (Bool-cases (text_eq queued item)) [
        | inl b ↦
            rw (there, b, validate_current_item)
              (there ∙ ap some ((text_eq_iff queued item).0 b), same, failure, reason, kept, f)
        | inr b ↦
            rw (there, b, validate_current_item)
              (queued, there, ground (arith, b, text_eq_iff queued item))
      ]
    ]

-- For every method, item, queue, index and policy. The method decides where the item stands in the queue at the index:
-- for this item, whose identity it keeps, with the failure and the end reason of the method. Where the
-- method goes on, a skip always, a failure as the policy says, it continues with the item after it, or says that
-- the queue is exhausted if there is none; elsewhere it stops the queue. The method fails with
-- CurrentIndexOutOfBounds where the queue has no such index, and with CurrentItemMismatch where another item stands there.
pub settle-Settles :
    (e : Ending) (item : PlaybackItemId) (queue : List PlaybackItemId) (i : ℕ) (p : FailurePolicy)
    → Settles e p item queue i (settle e item queue i p)
unfolding settle decide skip_item stop_item
settle-Settles (fails f) item queue i p =
    validated-Settles (fails f) p item queue i _ refl refl refl refl
      (continued-Follows queue i (continues_after p f))
settle-Settles skips item queue i p =
    validated-Settles skips p item queue i _ refl refl refl refl (next_action-Follows queue i)
settle-Settles stops item queue i p =
    validated-Settles stops p item queue i _ refl refl refl refl refl

-- The decision of a skip as an action, if it is one.
unfoldable pub action_of : Decision → Option QueueAction
action_of (ok d) = some d.queue_action
action_of (err _) = none

-- A skip of an item, and `n` more skips, each of the item that the one before continued with: the items that they
-- continued with, and the last action.
unfoldable pub skip_on :
    ℕ
    → List PlaybackItemId
    → FailurePolicy
    → PlaybackItemId
    → ℕ
    → List PlaybackItemId × Option QueueAction
skip_on zero queue p item i = ([], action_of (skip_item item queue i p))
skip_on (suc n) queue p item i = elim (action_of (skip_item item queue i p)) [
  | none ↦ ([], none)
  | some (stop_queue exhausted) ↦ ([], some (stop_queue exhausted))
  | some (continue_with item' j) ↦
      let (items, last) = skip_on n queue p item' j in (item' ∷ items, last)
]

skip_item-action :
    (queue : List PlaybackItemId) (p : FailurePolicy) (item : PlaybackItemId) (i : ℕ)
    → get_elem? queue i ≡ some item
    → action_of (skip_item item queue i p) ≡ some (next_action queue i)
unfolding skip_item validate_current_item action_of
skip_item-action queue p item i e =
    rw (e, (text_eq_iff item item).1 refl, skip_item, validate_current_item) refl

next_action-last :
    (queue : List PlaybackItemId) (i : ℕ)
    → length queue ≤ i + 1
    → next_action queue i ≡ stop_queue true
unfolding next_action
next_action-last queue i h = elim (Option-cases (get_elem? queue (i + 1))) [
  | inl e ↦ rw (e, next_action) refl
  | inr (item, e) ↦ absurd (omega (arith, h, get_elem?-some-lt queue (i + 1) item e))
]

get_elem?-middle :
    (before : List PlaybackItemId) (item : PlaybackItemId) (rest : List PlaybackItemId)
    → get_elem? (before ++ (item ∷ rest)) (length before) ≡ some item
get_elem?-middle [] item rest = refl
get_elem?-middle (x ∷ before) item rest = get_elem?-middle before item rest

-- The item moved to the end of those before it.
moved :
    (before : List PlaybackItemId) (item : PlaybackItemId) (rest : List PlaybackItemId)
    → before ++ (item ∷ rest) ≡ (before ++ (item ∷ [])) ++ rest
moved [] item rest = refl
moved (x ∷ before) item rest = ap (λ xs. x ∷ xs) (moved before item rest)

skips_through :
    (before : List PlaybackItemId) (item : PlaybackItemId) (rest queue : List PlaybackItemId)
    (p : FailurePolicy) (i : ℕ)
    → queue ≡ before ++ (item ∷ rest)
    → i ≡ length before
    → skip_on (length rest) queue p item i ≡ (rest, some (stop_queue true))
unfolding skip_on next_action
skips_through before item [] queue p i e at =
    let here : get_elem? queue i ≡ some item = rw (e, at) (get_elem?-middle before item []) in
    let size : length queue ≡ length before + 1 =
      ap (λ (xs : List PlaybackItemId). length xs) e ∙ length-append before (item ∷ []) in
    ap (λ a. ([], a))
      (skip_item-action queue p item i here
        ∙ ap some (next_action-last queue i (omega (arith, size, at))))
skips_through before item (item' ∷ rest) queue p i e at =
    let here : get_elem? queue i ≡ some item =
      rw (e, at) (get_elem?-middle before item (item' ∷ rest)) in
    let e' : queue ≡ (before ++ (item ∷ [])) ++ (item' ∷ rest) =
      e ∙ moved before item (item' ∷ rest) in
    let at' : i + 1 ≡ length (before ++ (item ∷ [])) =
      omega (arith, at, length-append before (item ∷ [])) in
    let next : get_elem? queue (i + 1) ≡ some item' =
      rw (e', at') (get_elem?-middle (before ++ (item ∷ [])) item' rest) in
    let later = skips_through (before ++ (item ∷ [])) item' rest queue p (i + 1) e' at' in
    rw (skip_item-action queue p item i here, skip_on, next, next_action)
      (ap (λ (x : List PlaybackItemId × Option QueueAction). (item' ∷ x.0, x.1)) later)

-- For an item that stands in a queue after the items `before` and before the items `rest`: skips, as many more as
-- there are items in `rest`, continue with each of them in order, and then the queue is exhausted.
pub skip_on_lem :
    (before : List PlaybackItemId) (item : PlaybackItemId) (rest : List PlaybackItemId)
    (p : FailurePolicy)
    → skip_on (length rest) (before ++ (item ∷ rest)) p item (length before)
      ≡ (rest, some (stop_queue true))
skip_on_lem before item rest p =
    skips_through before item rest (before ++ (item ∷ rest)) p (length before) refl refl
