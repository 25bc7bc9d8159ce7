-- ===== src/Tests/Telegram.antt =====
-- internal/interactions/telegram: commands, strangers and polls.
use withdraw_bot.Prelude.{String, ℤ, pos, none, some, List, [], ◌∷◌, ◌≡◌, refl, arith}
use withdraw_bot.Errors.{Error, Result, ok}
use withdraw_bot.Telegram.Commands.{check, parse_command}
use withdraw_bot.Telegram.Types.{Service, Sender, Update, Incoming, bound_response}
use withdraw_bot.Telegram.Dispatch.{dispatch, stats}
use withdraw_bot.Telegram.Service.{handle_command, consume_updates}
use withdraw_bot.Telegram.Bounds.{Among, IsBounded, handle_command-IsBounded}
use withdraw_bot.Telegram.Privacy.{consume_updates-AllRejected}

-- The state: the messages that were sent, and the events that were recorded.
abbrev Log : Type 0
Log = List String × List (List (String × String))

abbrev bot : Service Log
bot = record {
  authorization = record { chat_id = pos 5; allowed_user_ids = pos 7 ∷ [] };
  reports = some (λ w. (w, ok "Status: ok"));
  withdraw = none;
  thresholds = none;
  logs = none;
  events = some (λ fields w. ((w.0, fields ∷ w.1), none));
  sender = Sender.sender (λ chat text w. ((text ∷ w.0, w.1), none));
  max_response_chars = pos 8;
}

handle_command-IsBounded_example :
    ((◌≡◌ {A = ℤ} (pos 5) (pos 5)) × Among (pos 7) (pos 7 ∷ []))
    × (◌≡◌ {A = ℤ} (pos 5) (pos 5))
    × ((said : String) × ((dispatch bot (parse_command " /stats now") (pos 7) ([], [])).1 ≡ ok said)
        × IsBounded (pos 8) said "Statu...")
unfolding handle_command check parse_command dispatch stats bound_response
handle_command-IsBounded_example =
    handle_command-IsBounded bot (pos 5) (pos 7) " /stats now" ([], [])
      {response = record { chat_id = pos 5; text = "Statu..." }} refl

abbrev stranger : Update
stranger = record {
  update_id = pos 3;
  message = some (record { chat_id = some (pos 5); from_id = some (pos 9); text = "/withdraw" });
}

abbrev other_chat : Update
other_chat = record {
  update_id = pos 4;
  message = some (record { chat_id = some (pos 6); from_id = some (pos 7); text = "/stats" });
}

abbrev error_text : Error → String
error_text e = "error"

consume_updates-AllRejected_example :
    (consume_updates error_text bot
      (Incoming.update stranger ∷ Incoming.update other_chat ∷ [])
      ([], [])).0.0
    ≡ []
consume_updates-AllRejected_example =
    consume_updates-AllRejected error_text (λ w. w.0) bot (λ fields w. refl)
      (Incoming.update stranger ∷ Incoming.update other_chat ∷ []) ([], [])
      ((λ h. ground arith), ((λ h. ground arith), tt))

-- The bot answers with the update of the offset.
abbrev answer_next : ℤ → Result (List Update)
answer_next offset = ok (record { update_id = offset; message = none } ∷ [])
