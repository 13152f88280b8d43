-- ===== src/Sync/Outbox/Growth.antt =====
-- core/aurorix-sync/src/outbox.rs: what happens to an operation after it was put into the outbox.
use aurorix_music.Prelude.{
  ℕ, zero, suc, ◌≤◌, ◌<◌, ◌≡◌, ◌⊎◌, inl, inr, refl, sym, subst, ap, ◌∙◌, false, Option, none, some,
  List, [], ◌∷◌, ◌++◌, length, get_elem?, set, and_then, length-append, Bool-cases, Option-cases,
  arith,
}
use aurorix_music.Prelude.Text.{Text, text_eq, text_eq_iff}
use aurorix_music.Prelude.TextMap.{lookup, insert, lookup-insert}
use aurorix_music.Sync.Outbox.{
  new_operation, OutboxState, pending, acknowledged, archived, OutboxEntry, Outbox, entry, enqueue,
  set_state, acknowledge, archive,
}

-- A call on the outbox.
pub data Call : Type 0 where
  enqueues : Text → List ℕ → Call
  acknowledges archives : Text → Call

unfoldable pub call : Call → Outbox → Outbox
call (enqueues id bytes) o = (enqueue id bytes o).1
call (acknowledges id) o = (acknowledge id o).1
call (archives id) o = (archive id o).1

unfoldable pub call_all : List Call → Outbox → Outbox
call_all [] o = o
call_all (c ∷ cs) o = call_all cs (call c o)

abbrev pub rank : OutboxState → ℕ
rank pending = 0
rank acknowledged = 1
rank archived = 2

-- Every position is that of an entry.
abbrev pub IsIndexed : Outbox → Type 0
IsIndexed o = (id : Text) (i : ℕ) → lookup id o.positions ≡ some i → i < length o.entries

-- The later entry is the earlier one, in the same state or a later one.
abbrev pub Follows : OutboxEntry → OutboxEntry → Type 0
Follows e e' = (e'.operation ≡ e.operation) × (rank e.state ≤ rank e'.state)

-- What holds from one outbox to the next.
pub record Grows (o o' : Outbox) : Type 0 where
  pub indexed : IsIndexed o'
  pub stays :
      (id : Text) (e : OutboxEntry)
      → entry id o ≡ some e
      → (e' : OutboxEntry) × (entry id o' ≡ some e') × Follows e e'

unchanged : (o : Outbox) → IsIndexed o → Grows o o
unchanged o v = record { indexed = v; stays = λ id e h. (e, h, (refl, omega arith)) }

get_elem?-append :
    (xs ys : List OutboxEntry) (i : ℕ) → i < length xs → get_elem? (xs ++ ys) i ≡ get_elem? xs i
get_elem?-append [] ys i h = elim h [ ]
get_elem?-append (x ∷ xs) ys zero h = refl
get_elem?-append (x ∷ xs) ys (suc i) h = get_elem?-append xs ys i (omega arith)

get_elem?-lt :
    (xs : List OutboxEntry) (i : ℕ) → i < length xs → (e : OutboxEntry) × (get_elem? xs i ≡ some e)
get_elem?-lt [] i h = elim h [ ]
get_elem?-lt (x ∷ xs) zero h = (x, refl)
get_elem?-lt (x ∷ xs) (suc i) h = get_elem?-lt xs i (omega arith)

length-set : (xs : List OutboxEntry) (i : ℕ) (x : OutboxEntry) → length (set xs i x) ≡ length xs
length-set [] i x = refl
length-set (y ∷ xs) zero x = refl
length-set (y ∷ xs) (suc i) x = ap suc (length-set xs i x)

-- A write of a later state of an entry.
get_elem?-set :
    (xs : List OutboxEntry) (i j : ℕ) {old e : OutboxEntry} (new : OutboxEntry)
    → get_elem? xs i ≡ some old
    → Follows old new
    → get_elem? xs j ≡ some e
    → (e' : OutboxEntry) × (get_elem? (set xs i new) j ≡ some e') × Follows e e'
get_elem?-set [] i j new h f k = cc
get_elem?-set (x ∷ xs) zero zero new h f k = (new, refl, ground (arith, h, k, f))
get_elem?-set (x ∷ xs) zero (suc j) {e = e} new h f k = (e, k, (refl, omega arith))
get_elem?-set (x ∷ xs) (suc i) zero {e = e} new h f k = (e, k, (refl, omega arith))
get_elem?-set (x ∷ xs) (suc i) (suc j) new h f k = get_elem?-set xs i j new h f k

-- The position of an entry.
entry_position :
    (id : Text) (o : Outbox) {e : OutboxEntry}
    → entry id o ≡ some e
    → (i : ℕ) × (lookup id o.positions ≡ some i) × (get_elem? o.entries i ≡ some e)
unfolding entry
entry_position id o {e} h = found (lookup id o.positions) h
  where
    found :
        (k : Option ℕ)
        → and_then k (λ position. get_elem? o.entries position) ≡ some e
        → (i : ℕ) × (k ≡ some i) × (get_elem? o.entries i ≡ some e)
    found none h = cc
    found (some i) h = (i, refl, h)

pub entry_at :
    (id : Text) (o : Outbox) (i : ℕ) {e : OutboxEntry}
    → lookup id o.positions ≡ some i
    → get_elem? o.entries i ≡ some e
    → entry id o ≡ some e
unfolding entry
entry_at id o i h k = ap (λ p. and_then p (λ position. get_elem? o.entries position)) h ∙ k

set_state_lem :
    (id : Text) (state : OutboxState) (o : Outbox) (i : ℕ) {e : OutboxEntry}
    → lookup id o.positions ≡ some i
    → get_elem? o.entries i ≡ some e
    → set_state id state o ≡ record o { entries = set o.entries i (record e { state = state }) }
unfolding set_state
set_state_lem id state o i found here = ground (arith, found, here)

set_state-Grows :
    (id : Text) (state : OutboxState) (o : Outbox) {e : OutboxEntry}
    → IsIndexed o
    → entry id o ≡ some e
    → rank e.state ≤ rank state
    → Grows o (set_state id state o)
set_state-Grows id state o {e} v h le =
    let (i, found, here) = entry_position id o h in
    let later : OutboxEntry = record e { state = state } in
    let o' : Outbox = record o { entries = set o.entries i later } in
    subst (Grows o) (sym (set_state_lem id state o i found here)) (record {
      indexed = λ k j at. omega (arith, v k j at, length-set o.entries i later);
      stays = λ k x at.
          let (j, place, there) = entry_position k o at in
          let (x', read, follows) = get_elem?-set o.entries i j later here (refl, le) there in
          (x', entry_at k o' j place read, follows);
    })

-- A new entry behind the others, under an identity that has none.
pushed-Grows :
    (id : Text) (new : OutboxEntry) (o : Outbox)
    → IsIndexed o
    → entry id o ≡ none
    → Grows o (record {
      entries = o.entries ++ (new ∷ []);
      positions = insert id (length o.entries) o.positions;
    })
pushed-Grows id new o v free = record {
  indexed = λ k j at. ground (
    arith,
    v k j,
    at,
    lookup-insert id k (length o.entries) o.positions,
    length-append {0} o.entries (new ∷ []),
  );
  stays = λ k x at.
      let (j, place, there) = entry_position k o at in
      let other : text_eq id k ≡ false = apart id k o free at in
      (
        x,
        entry_at k
            (record {
              entries = o.entries ++ (new ∷ []);
              positions = insert id (length o.entries) o.positions;
            })
            j (lookup-insert id k (length o.entries) o.positions ∙ ground (arith, other, place))
            (get_elem?-append o.entries (new ∷ []) j (v k j place) ∙ there),
        (refl, omega arith),
      );
}
  where
    apart :
        (id k : Text) (o : Outbox) {x : OutboxEntry}
        → entry id o ≡ none
        → entry k o ≡ some x
        → text_eq id k ≡ false
    apart id k o free at = elim (Bool-cases (text_eq id k)) [
      | inr ne ↦ ne
      | inl eq ↦ cc ((text_eq_iff id k).0 eq)
    ]

pub enqueue-Grows :
    (id : Text) (bytes : List ℕ) (o : Outbox) → IsIndexed o → Grows o (enqueue id bytes o).1
unfolding enqueue
enqueue-Grows id bytes o v = elim (Option-cases (entry id o)) [
  | inl free ↦
      subst (Grows o) (ground (arith, free))
        (pushed-Grows id (record { operation = new_operation id bytes; state = pending }) o v free)
  | inr (e, held) ↦ subst (Grows o) {x = o} (ground (arith, held)) (unchanged o v)
]

state-cases : (s : OutboxState) → (s ≡ pending) ⊎ ((s ≡ acknowledged) ⊎ (s ≡ archived))
state-cases pending = inl refl
state-cases acknowledged = inr (inl refl)
state-cases archived = inr (inr refl)

acknowledge-Grows : (id : Text) (o : Outbox) → IsIndexed o → Grows o (acknowledge id o).1
unfolding acknowledge
acknowledge-Grows id o v = elim (Option-cases (entry id o)) [
  | inl free ↦ subst (Grows o) {x = o} (ground (arith, free)) (unchanged o v)
  | inr (e, held) ↦ elim (state-cases e.state) [
    | inl p ↦
        subst (Grows o) {x = set_state id acknowledged o} (ground (arith, held, p))
          (set_state-Grows id acknowledged o v held (ground (arith, p)))
    | inr done ↦ subst (Grows o) {x = o} (ground (arith, held, done)) (unchanged o v)
  ]
]

archive-Grows : (id : Text) (o : Outbox) → IsIndexed o → Grows o (archive id o).1
unfolding archive
archive-Grows id o v = elim (Option-cases (entry id o)) [
  | inl free ↦ subst (Grows o) {x = o} (ground (arith, free)) (unchanged o v)
  | inr (e, held) ↦ elim (state-cases e.state) [
    | inr (inr done) ↦ subst (Grows o) {x = o} (ground (arith, held, done)) (unchanged o v)
    | inr (inl acked) ↦
        subst (Grows o) {x = set_state id archived o} (ground (arith, held, acked))
          (set_state-Grows id archived o v held (ground arith))
    | inl p ↦
        subst (Grows o) {x = set_state id archived o} (ground (arith, held, p))
          (set_state-Grows id archived o v held (ground arith))
  ]
]

call-Grows : (c : Call) (o : Outbox) → IsIndexed o → Grows o (call c o)
unfolding call
call-Grows (enqueues id bytes) o v = enqueue-Grows id bytes o v
call-Grows (acknowledges id) o v = acknowledge-Grows id o v
call-Grows (archives id) o v = archive-Grows id o v

joined : {o o1 o2 : Outbox} → Grows o o1 → Grows o1 o2 → Grows o o2
joined g h = record {
  indexed = h.indexed;
  stays = λ id e at.
      let (e1, at1, f1) = g.stays id e at in
      let (e2, at2, f2) = h.stays id e1 at1 in (e2, at2, (f2.0 ∙ f1.0, omega (arith, f1.1, f2.1)));
}

pub call_all-Grows : (cs : List Call) (o : Outbox) → IsIndexed o → Grows o (call_all cs o)
unfolding call_all
call_all-Grows [] o v = unchanged o v
call_all-Grows (c ∷ cs) o v =
    let now = call-Grows c o v in joined now (call_all-Grows cs (call c o) now.indexed)
