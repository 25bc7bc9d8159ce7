-- ===== src/Telegram/Bounds.antt =====
-- internal/interactions/telegram: who gets an answer, and how long it is.
use Prim.Native.String.{String}
use text.Mathlib.TextLemmas.{cons-append, nil-append}
use withdraw_bot.Prelude.{
  ℕ, ℤ, zero, suc, ◌+◌, ◌-◌, ◌≤◌, ◌<◌, true, leb, ◌≡◌, ◌⊎◌, ◌↔◌, inl, inr, refl, sym, ap, ◌∙◌,
  subst, arith, Bool-cases, leb→le, char_count, take_text, ◌<>◌, List, [], ◌∷◌, eq_of_parts, Option,
  none, some, Option-cases, ◌≢◌,
}
use withdraw_bot.Errors.{Error, Result, ok, err, ok_inj}
use withdraw_bot.Telegram.Commands.{Authorization, check, is_allowed_user, parse_command}
use withdraw_bot.Telegram.Types.{Service, CommandResponse, bound_response, max_chars}
use withdraw_bot.Telegram.Dispatch.{dispatch}
use withdraw_bot.Telegram.Service.{
  checked, handle_command, respond, rejected, record_security_reject,
}

char_count-append : (s t : String) → char_count (s <> t) ≡ char_count s + char_count t
char_count-append String.[] t = ap char_count (nil-append t) ∙ omega arith
char_count-append (String.◌∷◌ c s) t =
    ap char_count (cons-append c s t) ∙ omega (arith, char_count-append s t)

char_count-take_text : (n : ℕ) (s : String) → n ≤ char_count s → char_count (take_text n s) ≡ n
char_count-take_text zero s h = refl
char_count-take_text (suc n) String.[] h = absurd (omega arith)
char_count-take_text (suc n) (String.◌∷◌ c s) h = ap suc (char_count-take_text n s (omega arith))

-- The text that a limit makes of a text: itself, or all that the limit leaves room for, with three
-- dots at its end if the limit is above 3.
abbrev pub IsBounded : ℤ → String → String → Type 0
IsBounded limit text bounded =
    ((char_count text ≤ max_chars limit) × (bounded ≡ text))
    ⊎ ((max_chars limit < char_count text)
        × (char_count bounded ≡ max_chars limit)
        × ((max_chars limit ≤ 3) × (bounded ≡ take_text (max_chars limit) text)
            ⊎ (3 < max_chars limit) × (bounded ≡ take_text (max_chars limit - 3) text <> "...")))

bound_response-IsBounded :
    (limit : ℤ) (text : String) → IsBounded limit text (bound_response limit text)
unfolding bound_response
bound_response-IsBounded limit text =
    let n = max_chars limit in
    elim (Bool-cases (leb (char_count text) n)) [
      | inl fits ↦ inl (leb→le (char_count text) n fits, rw fits)
      | inr long ↦
          let above : n < char_count text = ground arith in
          elim (Bool-cases (leb n 3)) [
            | inl short ↦ inr (
              above,
              rw (long, short) (char_count-take_text n text (omega arith)),
              inl (leb→le n 3 short, rw (long, short)),
            )
            | inr dots ↦
                let room : 3 < n = ground arith in
                inr (
                  above,
                  rw (long, dots)
                      (char_count-append (take_text (n - 3) text) "..."
                        ∙ omega (arith, char_count-take_text (n - 3) text)),
                  inr (room, rw (long, dots)),
                )
          ]
    ]

-- The user stands in the list.
abbrev pub Among : ℤ → List ℤ → Type 0
Among user_id [] = ⊥
Among user_id (id ∷ ids) = (id ≡ user_id) ⊎ Among user_id ids

Among-is_allowed_user :
    (user_id : ℤ) (ids : List ℤ) → (is_allowed_user user_id ids ≡ true) ↔ Among user_id ids
Among-is_allowed_user user_id [] = (λ h. cc, λ h. absurd h)
Among-is_allowed_user user_id (id ∷ ids) =
    ground (arith, eq_of_parts id user_id, Among-is_allowed_user user_id ids)

-- A user may command exactly from the chat of the bot and as one of the users that are allowed.
pub check-Among :
    (auth : Authorization) (chat_id user_id : ℤ)
    → (check auth chat_id user_id ≡ none)
      ↔ ((chat_id ≡ auth.chat_id) × Among user_id auth.allowed_user_ids)
unfolding check
check-Among auth chat_id user_id =
    ground
      (arith, eq_of_parts chat_id auth.chat_id, Among-is_allowed_user user_id auth.allowed_user_ids)

module _ {W : Type 0} where
  respond_lem :
      (service : Service W) (chat_id : ℤ) (said : W × Result String) {response : CommandResponse}
      → (respond service chat_id said).1 ≡ ok response
      → (response.chat_id ≡ chat_id)
        × ((t : String) × (said.1 ≡ ok t) × IsBounded service.max_response_chars t response.text)
  respond_lem service chat_id (w, err e) h = cc
  respond_lem service chat_id (w, ok t) {response} h =
      let same = ok_inj h in
      (
        ap (λ r. r.chat_id) (sym same),
        (
          t,
          refl,
          subst (λ r. IsBounded service.max_response_chars t r.text) same
              (bound_response-IsBounded service.max_response_chars t),
        ),
      )

  rejected-not-ok :
      (e : Error) (recorded : W × Option Error) {response : CommandResponse}
      → (rejected e recorded).1 ≢ ok response
  rejected-not-ok e (w, none) h = cc
  rejected-not-ok e (w, some x) h = cc

  -- Every answer to a command goes to the chat of the command, from which its user may command, and
  -- is what the command said, cut to the limit of the service.
  pub handle_command-IsBounded :
      (service : Service W) (chat_id user_id : ℤ) (text : String) (w : W)
      {response : CommandResponse}
      → (handle_command service chat_id user_id text w).1 ≡ ok response
      → ((chat_id ≡ service.authorization.chat_id)
          × Among user_id service.authorization.allowed_user_ids)
        × (response.chat_id ≡ chat_id)
        × ((said : String) × ((dispatch service (parse_command text) user_id w).1 ≡ ok said)
            × IsBounded service.max_response_chars said response.text)
  unfolding handle_command
  handle_command-IsBounded service chat_id user_id text w {response} h =
      let command = parse_command text in
      let refuse : Error → W × Result CommandResponse =
        λ e. rejected e (record_security_reject service command chat_id user_id w) in
      let go_on : W × Result CommandResponse =
        respond service chat_id (dispatch service command user_id w) in
      elim (Option-cases (check service.authorization chat_id user_id)) [
        | inl e ↦
            let (chat, said) =
              respond_lem service chat_id (dispatch service command user_id w)
                (subst (λ c. (checked c refuse go_on).1 ≡ ok response) e h) in
            ((check-Among service.authorization chat_id user_id).0 e, chat, said)
        | inr (x, e) ↦ absurd (
            rejected-not-ok x (record_security_reject service command chat_id user_id w)
              (subst (λ c. (checked c refuse go_on).1 ≡ ok response) e h))
      ]
