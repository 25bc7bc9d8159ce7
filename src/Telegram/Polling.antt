-- ===== src/Telegram/Polling.antt =====
-- internal/interactions/telegram: the polling of the bot takes every update once.
use withdraw_bot.Prelude.{ℤ, pos, String, ◌+ℤ◌, ◌≤ℤ◌, ◌≡◌, List, [], ◌∷◌, ◌++◌, none}
use withdraw_bot.Errors.{Error, Result, ok}
use withdraw_bot.Telegram.Types.{Service, Update, PollRound, next_offset}
use withdraw_bot.Telegram.Service.{handle_update}

-- The ids go up, each from the offset on that the one before leaves.
abbrev pub AscendingFrom : ℤ → List Update → Type 0
AscendingFrom offset [] = Unit
AscendingFrom offset (u ∷ us) = (offset ≤ℤ u.update_id) × AscendingFrom (u.update_id +ℤ pos 1) us

-- What Telegram documents of `getUpdates`: the answer to an offset holds updates from that id on, in
-- ascending order.
abbrev pub Documented : List PollRound → Type 0
Documented [] = Unit
Documented (PollRound.done e ∷ rounds) = Documented rounds
Documented (PollRound.get_updates get ∷ rounds) =
    ((offset : ℤ) (us : List Update) → get offset ≡ ok us → AscendingFrom offset us)
    × Documented rounds

-- The offset after updates.
abbrev pub offset_after : ℤ → List Update → ℤ
offset_after offset [] = offset
offset_after offset (u ∷ us) = offset_after (next_offset offset u) us

-- The updates that the rounds answer with, each to the offset that the rounds before leave.
pub data Answered : List PollRound → ℤ → List Update → Type 0 where
  end : {offset : ℤ} → Answered [] offset []
  batch :
      {get : ℤ → Result (List Update)} {rounds : List PollRound} {offset : ℤ}
      {us more : List Update}
      → get offset ≡ ok us
      → Answered rounds (offset_after offset us) more
      → Answered (PollRound.get_updates get ∷ rounds) offset (us ++ more)

module _ {W : Type 0} (error_text : Error → String) (service : Service W) where
  -- The updates are handled one after the other, each without an error, from one state to another.
  pub data Handled : List Update → W → W → Type 0 where
    none_left : {w : W} → Handled [] w w
    handled :
        {u : Update} {us : List Update} {w after : W}
        → (handle_update error_text service u w).1 ≡ none
        → Handled us (handle_update error_text service u w).0 after
        → Handled (u ∷ us) w after
