-- ===== src/Playback/Policy/Edits.antt =====
-- core/aurorix-playback/src/queue_policy.rs: the methods of the policy that do not navigate.
use aurorix_music.Prelude.{
  ℕ, zero, suc, ◌<◌, ◌≡◌, refl, Bool, Option, none, some, List, [], ◌∷◌, arith, inl, inr,
  Option-cases, length,
}
use aurorix_music.Prelude.Exec.{Result, ok, err}
use aurorix_music.Playback.Command.{PlaybackItemId, RepeatMode}
use aurorix_music.Playback.Policy.{
  QueuePolicy, QueueError, set_items, select_item, set_shuffle, set_repeat, position_of_item,
}
use aurorix_music.Playback.Policy.Selection.{IsValid}

-- The methods that change the policy without navigating, with their arguments.
pub data PolicyEdit : Type 0 where
  replaces : List PlaybackItemId → Option ℕ → PolicyEdit
  selects : PlaybackItemId → PolicyEdit
  shuffles : Bool → ℕ → PolicyEdit
  repeats : RepeatMode → PolicyEdit

unfoldable pub edit : PolicyEdit → QueuePolicy → Result QueueError (Unit {0}) × QueuePolicy
edit (replaces items current) p = set_items items current p
edit (selects item) p = select_item item p
edit (shuffles enabled seed) p = (ok tt, set_shuffle enabled seed p)
edit (repeats mode) p = (ok tt, set_repeat mode p)

-- A position that was found is an index.
position_of_item-lt :
    (item : PlaybackItemId) (items : List PlaybackItemId) (i : ℕ)
    → position_of_item item items ≡ some i
    → i < length items
unfolding position_of_item
position_of_item-lt item [] i h = cc
position_of_item-lt item (x ∷ xs) zero h = omega arith
position_of_item-lt item (x ∷ xs) (suc i) h = ground (arith, position_of_item-lt item xs i)

-- What an edit leaves: a refused one the same policy, one that succeeds a valid selection.
abbrev pub Checked : QueuePolicy → Result QueueError (Unit {0}) × QueuePolicy → Type 0
Checked p (ok _, p') = IsValid p'
Checked p (err _, p') = p' ≡ p

-- Every edit of a valid policy checks before it writes: refused it changes nothing, and otherwise the
-- selection is an index of the items.
pub edit-Checked : (e : PolicyEdit) (p : QueuePolicy) → IsValid p → Checked p (edit e p)
unfolding edit set_items select_item
edit-Checked (replaces items none) p v = ground arith
edit-Checked (replaces items (some i)) p v = ground arith
edit-Checked (selects item) p v = elim (Option-cases (position_of_item item p.items)) [
  | inl e ↦ rw (e, select_item) refl
  | inr (i, e) ↦ rw (e, select_item) (position_of_item-lt item p.items i e)
]
edit-Checked (shuffles enabled seed) p v = v
edit-Checked (repeats mode) p v = v
