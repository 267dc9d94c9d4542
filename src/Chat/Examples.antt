-- ===== src/Chat/Examples.antt =====
-- Two messages whose numbers are taken before either is stored, and which are stored in the other order.
use package.ayo_snbt_backend.Common.{ℕ, ◌≤◌, none, some, List, [], ◌∷◌, arith}
use package.ayo_snbt_backend.Chat.{random, course, Room, MessageInput}
use package.ayo_snbt_backend.Chat.Sequence.{State, Event, begins, ends, run, stored, run-stored-le}

abbrev room : Room
room = record {
  id = random 7;
  type = course;
  course_id = some 4;
  mentor_id = none;
  member_ids = 1 ∷ 2 ∷ [];
  unread_counts = [];
  last_seq = 0;
  last_message_at = none;
}

abbrev state : State
state = record { db = record { rooms = room ∷ []; messages = [] }; waiting = [] }

abbrev hello : ℕ → MessageInput
hello user = record { room_id = random 7; sender_id = user; body = 72 ∷ [] }

abbrev events : List Event
events = begins 10 (hello 1) ∷ begins 11 (hello 2) ∷ ends 1 ∷ ends 0 ∷ []

run-stored-le_example : stored (random 7) 2 (run events state).db.messages ≤ 1
run-stored-le_example = run-stored-le events state (random 7) 2 (λ id seq. ground arith)
