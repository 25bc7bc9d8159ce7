-- ===== src/Storage/RecentEvents.antt =====
-- internal/storage/repositories.go: proofs on the recent events.
use mathlib.Core.List.Perm
use mathlib.Core.List.{Perm}
use withdraw_bot.Prelude.{String, false, List, [], ◌∷◌, str_ltb, ◌≡◌}
use withdraw_bot.Errors.{Result, ok}
use withdraw_bot.Core.{Time}
use withdraw_bot.Storage.Events.{EventRecord, EventRow}

-- The first of the rows is not newer than the row.
abbrev pub NotNewer : EventRow → List EventRow → Type 0
NotNewer e [] = Unit
NotNewer e (x ∷ xs) = str_ltb e.created_at x.created_at ≡ false

-- No row is newer, by the text of its time, than the one before it.
abbrev pub NewestFirst : List EventRow → Type 0
NewestFirst [] = Unit
NewestFirst (e ∷ es) = NotNewer e es × NewestFirst es

module _ (parse : String → Result Time) where
  -- The records of the rows, in their order.
  abbrev pub Shows : List EventRow → List EventRecord → Type 0
  Shows [] [] = Unit
  Shows [] (_ ∷ _) = ⊥
  Shows (_ ∷ _) [] = ⊥
  Shows (r ∷ rs) (e ∷ es) =
      ((e.event_type ≡ r.event_type)
        × (e.message ≡ r.message)
        × (e.fields ≡ r.fields)
        × (parse r.created_at ≡ ok e.created_at))
      × Shows rs es
