-- ===== src/Chat/Sequence.antt =====
-- Messages that are sent at the same time: the number of each is taken before any of them is stored,
-- in any order. The unique index on the room and the number is never broken.
use package.ayo_snbt_backend.Common.{
  ℕ, zero, suc, ◌+◌, ◌≤◌, ◌≡◌, refl, sym, ap, subst, inl, inr, Bool, true, ◌&&◌, Option, none, some,
  List, [], ◌∷◌, ◌++◌, arith, ◌==◌, leb, if◌then◌else◌, first, first-holds, first-update, select,
  update, length, get_elem?, take, Bool-cases, Option-cases, ==_iff,
}
use package.ayo_snbt_backend.Common.Action.{Outcome, returns, throws, not_found_error}
use package.ayo_snbt_backend.Chat.{
  RoomId, random, one_to_one, id_eq, Room, ChatMessage, ChatDb, MessageInput, update_room,
  increment_all, distinct, get_room, next_room_seq, allocate, store_message,
}

pub record State : Type 0 where
  pub db : ChatDb
  pub waiting : List (Room × ChatMessage)

-- A call of `persistMessage` begins, or the one at this place of the waiting ones ends.
pub data Event : Type 0 where
  begins : ℕ → MessageInput → Event
  ends : ℕ → Event

abbrev pub remove {ℓ} : {A : Type ℓ} → List A → ℕ → List A
remove [] i = []
remove (x ∷ xs) zero = xs
remove (x ∷ xs) (suc i) = x ∷ remove xs i

abbrev pub begun : Outcome ChatDb (Room × ChatMessage) → State → State
begun (returns x db) s = record { db = db; waiting = s.waiting ++ x ∷ [] }
begun (throws e db) s = record s { db = db }

unfoldable pub step : Event → State → State
unfolding allocate store_message
step (begins now input) s = begun (allocate now input s.db) s
step (ends n) s = elim (get_elem? s.waiting n) [
  | none ↦ s
  | some x ↦ record { db = store_message x.0 x.1 s.db; waiting = remove s.waiting n }
]

unfoldable pub run : List Event → State → State
unfolding step
run [] s = s
run (e ∷ es) s = run es (step e s)

-- The messages of a room with a number, stored and waiting.
abbrev pub is_at : RoomId → ℕ → ChatMessage → Bool
is_at id seq m = id_eq m.room_id id && (m.seq == seq)

abbrev pub stored : RoomId → ℕ → List ChatMessage → ℕ
stored id seq ms = length (select (is_at id seq) ms)

abbrev in_flight : RoomId → ℕ → List (Room × ChatMessage) → ℕ
in_flight id seq xs = length (select (λ (x : Room × ChatMessage). is_at id seq x.1) xs)

abbrev find : RoomId → List Room → Option Room
find id rooms = first (λ (r : Room). id_eq r.id id) rooms

abbrev seq_of : Option Room → ℕ
seq_of none = 0
seq_of (some r) = r.last_seq

abbrev last_of : RoomId → List Room → ℕ
last_of id rooms = seq_of (find id rooms)

-- A number that was given is held by one message at most, and one that was not by none.
abbrev Inv : State → Type 0
Inv s =
    (id : RoomId) (seq : ℕ)
    → stored id seq s.db.messages + in_flight id seq s.waiting
      ≤ (if leb seq (last_of id s.db.rooms) then 1 else 0)

eq_of_id_eq : (a b : RoomId) → id_eq a b ≡ true → a ≡ b
unfolding id_eq
eq_of_id_eq (random a) (random b) h = ap random ((==_iff a b).0 h)
eq_of_id_eq (random a) (one_to_one c d) h = cc
eq_of_id_eq (one_to_one a b) (random c) h = cc
eq_of_id_eq (one_to_one a b) (one_to_one c d) h = ground (arith, ==_iff a c, ==_iff b d)

abbrev bump : Room → Room
bump r = record r { last_seq = suc r.last_seq }

last_of-update :
    (k id : RoomId) (f : Room → Room) (rooms : List Room)
    → ((r : Room) → (f r).id ≡ r.id)
    → ((r : Room) → (f r).last_seq ≡ r.last_seq)
    → last_of k (update (λ (r : Room). id_eq r.id id) f rooms) ≡ last_of k rooms
last_of-update k id f rooms same_id same_seq =
    rw
      (
        first-update (λ (x : Room). id_eq x.id id) (λ (x : Room). id_eq x.id k) f rooms
            (λ x. ap (λ i. id_eq i k) (same_id x)),
        last_of,
      )
      (elim (Option-cases (find k rooms)) [
        | inl e ↦ rw (e, last_of) refl
        | inr (r, e) ↦
            rw (e, last_of)
              (elim (Bool-cases (id_eq r.id id)) [ inl p ↦ rw p (same_seq r) | inr p ↦ rw p refl ])
      ])

last_of-bump :
    (id k : RoomId) (rooms : List Room)
    → last_of k rooms ≤ last_of k (update (λ (r : Room). id_eq r.id id) bump rooms)
last_of-bump id k rooms = elim (Option-cases (find k rooms)) [
  | inl e ↦ rw (e, last_of) (omega arith)
  | inr (r, e) ↦
      rw
        (
          first-update (λ (x : Room). id_eq x.id id) (λ (x : Room). id_eq x.id k) bump rooms
              (λ x. refl),
          last_of,
        )
        (rw (e, last_of)
          (elim (Bool-cases (id_eq r.id id)) [
            | inl p ↦ rw p (omega arith)
            | inr p ↦ rw p (omega arith)
          ]))
]

last_of-bump_same :
    (id : RoomId) (rooms : List Room) (r : Room)
    → find id rooms ≡ some r
    → find id (update (λ (r : Room). id_eq r.id id) bump rooms) ≡ some (bump r)
last_of-bump_same id rooms r e =
    rw
      (first-update (λ (x : Room). id_eq x.id id) (λ (x : Room). id_eq x.id id) bump rooms
        (λ x. refl))
      (rw (e, first-holds (λ (x : Room). id_eq x.id id) rooms r e) refl)

count-remove :
    (id : RoomId) (seq n : ℕ) (xs : List (Room × ChatMessage)) (x : Room × ChatMessage)
    → get_elem? xs n ≡ some x
    → in_flight id seq (remove xs n) + (if is_at id seq x.1 then 1 else 0) ≡ in_flight id seq xs
count-remove id seq n [] x h = cc
count-remove id seq zero (y ∷ ys) x h = rw (same y x h) (ground arith)
  where
    same : (y x : Room × ChatMessage) → some y ≡ some x → y ≡ x
    same y x h = cc
count-remove id seq (suc n) (y ∷ ys) x h = ground (arith, count-remove id seq n ys x h)

abbrev next_message : ℕ → MessageInput → Room → ChatMessage
next_message now input r = record {
  room_id = input.room_id;
  sender_id = input.sender_id;
  body = take 2_000 input.body;
  seq = suc r.last_seq;
  created_at = now;
}

allocate-found :
    (now : ℕ) (input : MessageInput) (db : ChatDb) (r : Room)
    → find input.room_id db.rooms ≡ some r
    → allocate now input db
      ≡ returns (r, next_message now input r) (update_room input.room_id bump db)
unfolding allocate get_room next_room_seq
allocate-found now input db r e =
    rw (e, allocate) (rw (last_of-bump_same input.room_id db.rooms r e, allocate) refl)

allocate-missing :
    (now : ℕ) (input : MessageInput) (db : ChatDb)
    → find input.room_id db.rooms ≡ none
    → allocate now input db ≡ throws not_found_error db
unfolding allocate get_room next_room_seq
allocate-missing now input db e = rw (e, allocate) refl

in_flight-append :
    (id : RoomId) (seq : ℕ) (xs : List (Room × ChatMessage)) (x : Room × ChatMessage)
    → in_flight id seq (xs ++ x ∷ []) ≡ in_flight id seq xs + (if is_at id seq x.1 then 1 else 0)
in_flight-append id seq [] x = ground arith
in_flight-append id seq (y ∷ ys) x = ground (arith, in_flight-append id seq ys x)

stored-append :
    (id : RoomId) (seq : ℕ) (xs : List ChatMessage) (x : ChatMessage)
    → stored id seq (xs ++ x ∷ []) ≡ stored id seq xs + (if is_at id seq x then 1 else 0)
stored-append id seq [] x = ground arith
stored-append id seq (y ∷ ys) x = ground (arith, stored-append id seq ys x)

begin-Inv :
    (now : ℕ) (input : MessageInput) (s : State) (r : Room)
    → find input.room_id s.db.rooms ≡ some r
    → Inv s
    → Inv (record {
      db = update_room input.room_id bump s.db;
      waiting = s.waiting ++ (r, next_message now input r) ∷ [];
    })
begin-Inv now input s r e i id seq = elim (Bool-cases (is_at id seq (next_message now input r))) [
  | inl p ↦
      let q : input.room_id ≡ id = eq_of_id_eq input.room_id id (ground (arith, p)) in
      let old : last_of id s.db.rooms ≡ r.last_seq =
        ap seq_of (subst (λ k. find k s.db.rooms ≡ some r) q e) in
      let new : last_of id (update_room input.room_id bump s.db).rooms ≡ suc r.last_seq =
        ap seq_of (
          subst (λ k. find k (update_room input.room_id bump s.db).rooms ≡ some (bump r)) q
            (last_of-bump_same input.room_id s.db.rooms r e)) in
      ground (
        arith,
        i id seq,
        in_flight-append id seq s.waiting (r, next_message now input r),
        p,
        old,
        new,
      )
  | inr p ↦ ground (
    arith,
    i id seq,
    in_flight-append id seq s.waiting (r, next_message now input r),
    p,
    last_of-bump input.room_id id s.db.rooms,
  )
]

store-Inv :
    (n : ℕ) (x : Room × ChatMessage) (s : State)
    → get_elem? s.waiting n ≡ some x
    → Inv s
    → Inv (record { db = store_message x.0 x.1 s.db; waiting = remove s.waiting n })
unfolding store_message
store-Inv n x s e i id seq = ground (
  arith,
  i id seq,
  stored-append id seq s.db.messages x.1,
  count-remove id seq n s.waiting x e,
  last_of-update id x.1.room_id
      (λ (r : Room). record r {
        last_message_at = some x.1.created_at;
        unread_counts = increment_all x.1.sender_id (distinct [] x.0.member_ids) r.unread_counts;
      })
      s.db.rooms (λ r. refl) (λ r. refl),
)

step-Inv : (e : Event) (s : State) → Inv s → Inv (step e s)
unfolding step
step-Inv (begins now input) s i = elim (Option-cases (find input.room_id s.db.rooms)) [
  | inl e ↦ subst (λ o. Inv (begun o s)) (sym (allocate-missing now input s.db e)) i
  | inr (r, e) ↦
      subst (λ o. Inv (begun o s)) (sym (allocate-found now input s.db r e))
        (begin-Inv now input s r e i)
]
step-Inv (ends n) s i = elim (Option-cases (get_elem? s.waiting n)) [
  | inl e ↦ rw (e, step) i
  | inr (x, e) ↦ rw (e, step) (store-Inv n x s e i)
]

-- From a state in which each number up to a room's last one is held by one message at most, and no
-- later one by any, however calls begin and end, no two messages of a room have the same number.
pub run-stored-le :
    (es : List Event) (s : State) (id : RoomId) (seq : ℕ)
    → Inv s
    → stored id seq (run es s).db.messages ≤ 1
unfolding run
run-stored-le [] s id seq i = ground (arith, i id seq)
run-stored-le (e ∷ es) s id seq i = run-stored-le es (step e s) id seq (step-Inv e s i)
