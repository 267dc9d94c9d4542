-- ===== src/Chat/History.antt =====
-- `history` of modules/chat/service.ts.
use mathlib.Core.List.{reverse}
use package.ayo_snbt_backend.Common.{
  ℕ, min, Bool, true, ◌&&◌, ◌||◌, Option, none, some, List, [], ◌∷◌, ◌==◌, ltb, if◌then◌else◌,
  select, take,
}
use package.ayo_snbt_backend.Chat.{RoomId, id_eq, ChatMessage, ChatDb}

-- The sort by `seq`, descending.
unfoldable pub insert_desc : ChatMessage → List ChatMessage → List ChatMessage
insert_desc m [] = m ∷ []
insert_desc m (x ∷ xs) =
    let rest = insert_desc m xs in if ltb x.seq m.seq then m ∷ x ∷ xs else x ∷ rest

unfoldable pub sort_desc : List ChatMessage → List ChatMessage
unfolding insert_desc
sort_desc [] = []
sort_desc (m ∷ ms) = insert_desc m (sort_desc ms)

-- `if (beforeSeq) filter.seq = …`
abbrev is_before : Option ℕ → ℕ → Bool
is_before none seq = true
is_before (some b) seq = (b == 0) || ltb seq b

-- `history`.
unfoldable pub history : RoomId → Option ℕ → ℕ → ChatDb → List ChatMessage
unfolding sort_desc id_eq
history room_id before_seq limit db = reverse (
    take (min limit 100) (
      sort_desc (
        select (λ (m : ChatMessage). id_eq m.room_id room_id && is_before before_seq m.seq)
          db.messages)))
