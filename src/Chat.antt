-- ===== src/Chat.antt =====
-- modules/chat/service.ts and `nextRoomSeq` of modules/chat/mongo.ts. Each call of the document store
-- is one atomic step; names are left out, and what `courses` answers is an argument.
pub mod Sequence
pub mod History
mod Examples
use mathlib.Core.List.{reverse}
use package.ayo_snbt_backend.Common.{
  ℕ, zero, suc, ◌+◌, min, max, Bool, true, false, not, ◌&&◌, ◌||◌, Option, none, some, List, [],
  ◌∷◌, ◌++◌, ◌==◌, ltb, leb, if◌then◌else◌, is_some, or_else, any, first, select, update, take, map,
}
use package.ayo_snbt_backend.Common.Action.{
  Action, pure, throw, throw_if, or_throw, gets, modify, ◌>>=◌, ◌>>◌, bad_request_error,
  forbidden_error, not_found_error, bad_request, forbidden, not_room_member,
}
use package.ayo_snbt_backend.Common.Text.{Text}

pub data RoomType : Type 0 where
  course mentor group : RoomType

-- A random id, or the key `1:1:a:b` of two users in order.
pub data RoomId : Type 0 where
  random : ℕ → RoomId
  one_to_one : ℕ → ℕ → RoomId

unfoldable pub id_eq : RoomId → RoomId → Bool
id_eq (random a) (random b) = a == b
id_eq (random a) (one_to_one c d) = false
id_eq (one_to_one a b) (random c) = false
id_eq (one_to_one a b) (one_to_one c d) = (a == c) && (b == d)

pub record Room : Type 0 where
  pub id : RoomId
  pub type : RoomType
  pub course_id : Option ℕ
  pub mentor_id : Option ℕ
  pub member_ids : List ℕ
  pub unread_counts : List (ℕ × ℕ)
  pub last_seq : ℕ
  pub last_message_at : Option ℕ

pub record ChatMessage : Type 0 where
  pub room_id : RoomId
  pub sender_id : ℕ
  pub body : Text
  pub seq : ℕ
  pub created_at : ℕ

pub record ChatDb : Type 0 where
  pub rooms : List Room
  pub messages : List ChatMessage

pub record User : Type 0 where
  pub id : ℕ
  pub is_admin : Bool
  pub is_mentor : Bool

pub record RoomInput : Type 0 where
  pub type : Option RoomType
  pub course_id : Option ℕ
  pub mentor_id : Option ℕ
  pub member_ids : List ℕ

abbrev includes : List ℕ → ℕ → Bool
includes ids x = any (λ i. i == x) ids

-- `[...new Set(ids)]`, with what was seen.
unfoldable pub distinct : List ℕ → List ℕ → List ℕ
distinct seen [] = []
distinct seen (i ∷ is) = if includes seen i then distinct seen is else i ∷ distinct (i ∷ seen) is

abbrev new_room : RoomId → RoomType → Option ℕ → Option ℕ → List ℕ → Room
new_room id type course_id mentor_id members = record {
  id = id;
  type = type;
  course_id = course_id;
  mentor_id = mentor_id;
  member_ids = members;
  unread_counts = [];
  last_seq = 0;
  last_message_at = none;
}

abbrev insert_room : Room → Action ChatDb Room
insert_room r = do modify (λ db. record db { rooms = db.rooms ++ r ∷ [] }); pure r

abbrev is_course_room : ℕ → Room → Bool
is_course_room course_id r = elim r.course_id [ none ↦ false | some c ↦ c == course_id ]

-- The branch of a course room; `course_exists` says whether `coursesService.getById` returns.
unfoldable pub create_course_room : ℕ → (ℕ → Bool) → User → Option ℕ → Action ChatDb Room
create_course_room fresh course_exists user none = throw (bad_request_error bad_request)
create_course_room fresh course_exists user (some course_id) = do
  throw_if (not user.is_mentor && not user.is_admin) (forbidden_error forbidden)
  existing ← gets (λ db. first (is_course_room course_id) db.rooms)
  elim existing [
    | some r ↦ pure r
    | none ↦ (do
      throw_if (not (course_exists course_id)) not_found_error
      insert_room (new_room (random fresh) course (some course_id) none (user.id ∷ [])))
  ]

-- The branch of a room for two.
unfoldable pub create_mentor_room : User → Option ℕ → Action ChatDb Room
unfolding id_eq
create_mentor_room user none = throw (bad_request_error bad_request)
create_mentor_room user (some mentor_id) = do
  let a : ℕ = min user.id mentor_id
  let b : ℕ = max user.id mentor_id
  existing ← gets (λ db. first (λ (r : Room). id_eq r.id (one_to_one a b)) db.rooms)
  elim existing [
    | some r ↦ pure r
    | none ↦ insert_room (new_room (one_to_one a b) mentor none (some mentor_id) (a ∷ b ∷ []))
  ]

-- `createRoom`; a type that is none of the three is none.
unfoldable pub create_room : ℕ → (ℕ → Bool) → User → RoomInput → Action ChatDb Room
unfolding create_course_room create_mentor_room distinct
create_room fresh course_exists user input = elim input.type [
  | none ↦ throw (bad_request_error bad_request)
  | some course ↦ create_course_room fresh course_exists user input.course_id
  | some mentor ↦ create_mentor_room user input.mentor_id
  | some group ↦
      insert_room
        (new_room (random fresh) group none none (distinct [] (user.id ∷ input.member_ids)))
]

-- `getRoom`.
unfoldable pub get_room : RoomId → Action ChatDb Room
unfolding id_eq
get_room room_id = do
  room ← gets (λ db. first (λ (r : Room). id_eq r.id room_id) db.rooms)
  or_throw room not_found_error

abbrev is_course : RoomType → Bool
is_course course = true
is_course mentor = false
is_course group = false

-- `assertMember`: `is_enrolled` is what `coursesService.isEnrolled` answers.
unfoldable pub assert_member : (ℕ → ℕ → Bool) → User → Room → Action ChatDb (Unit {0})
assert_member is_enrolled user room =
    if includes room.member_ids user.id
    then pure tt
    else if is_course room.type
        && (user.is_admin
            || user.is_mentor
            || elim room.course_id [ none ↦ false | some c ↦ is_enrolled user.id c ])
    then pure tt
    else throw (forbidden_error not_room_member)

abbrev update_room : RoomId → (Room → Room) → ChatDb → ChatDb
update_room id f db = record db { rooms = update (λ (r : Room). id_eq r.id id) f db.rooms }

-- `addMember`.
unfoldable pub add_member : RoomId → ℕ → User → Action ChatDb (Unit {0})
unfolding get_room id_eq
add_member room_id user_id by_user = do
  room ← get_room room_id
  throw_if (is_course room.type && not by_user.is_admin && not by_user.is_mentor)
      (forbidden_error forbidden)
  modify (
      update_room room_id (λ r.
        if includes r.member_ids user_id
        then r
        else record r { member_ids = r.member_ids ++ user_id ∷ [] }))

-- `nextRoomSeq`.
unfoldable pub next_room_seq : RoomId → Action ChatDb ℕ
unfolding id_eq
next_room_seq room_id = do
  modify (update_room room_id (λ r. record r { last_seq = suc r.last_seq }))
  room ← gets (λ db. first (λ (r : Room). id_eq r.id room_id) db.rooms)
  pure (elim room [ none ↦ 1 | some r ↦ r.last_seq ])

pub record MessageInput : Type 0 where
  pub room_id : RoomId
  pub sender_id : ℕ
  pub body : Text

-- The first two calls of `persistMessage`: the room as it is read, and the message with its number.
unfoldable pub allocate : ℕ → MessageInput → Action ChatDb (Room × ChatMessage)
unfolding get_room next_room_seq
allocate now input = do
  room ← get_room input.room_id
  seq ← next_room_seq input.room_id
  pure (
    room,
    record {
      room_id = input.room_id;
      sender_id = input.sender_id;
      body = take 2_000 input.body;
      seq = seq;
      created_at = now;
    },
  )

-- `$inc` of a counter.
unfoldable pub increment : ℕ → List (ℕ × ℕ) → List (ℕ × ℕ)
increment k [] = (k, 1) ∷ []
increment k (e ∷ es) = let rest = increment k es in if e.0 == k then (k, suc e.1) ∷ es else e ∷ rest

-- The counters of the members except the sender, each counted once.
unfoldable pub increment_all : ℕ → List ℕ → List (ℕ × ℕ) → List (ℕ × ℕ)
unfolding increment
increment_all sender [] counts = counts
increment_all sender (m ∷ ms) counts =
    increment_all sender ms (if m == sender then counts else increment m counts)

-- The other two calls of `persistMessage`: the insert, and the room's metadata.
unfoldable pub store_message : Room → ChatMessage → ChatDb → ChatDb
unfolding id_eq increment_all distinct
store_message room m db =
    update_room m.room_id
      (λ r. record r {
        last_message_at = some m.created_at;
        unread_counts = increment_all m.sender_id (distinct [] room.member_ids) r.unread_counts;
      })
      (record db { messages = db.messages ++ m ∷ [] })

-- `persistMessage`, where nothing comes between its calls.
unfoldable pub persist_message : ℕ → MessageInput → Action ChatDb ChatMessage
unfolding allocate store_message
persist_message now input = do
  allocated ← allocate now input
  modify (store_message allocated.0 allocated.1)
  pure allocated.1

-- `$set` of a counter to 0.
unfoldable pub reset : ℕ → List (ℕ × ℕ) → List (ℕ × ℕ)
reset k [] = (k, 0) ∷ []
reset k (e ∷ es) = let rest = reset k es in if e.0 == k then (k, 0) ∷ es else e ∷ rest

-- `markRead`: membership is not asked.
unfoldable pub mark_read : ℕ → RoomId → Action ChatDb (Unit {0})
unfolding get_room id_eq reset
mark_read user_id room_id = do
  _ ← get_room room_id
  modify (update_room room_id (λ r. record r { unread_counts = reset user_id r.unread_counts }))
