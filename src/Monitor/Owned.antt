-- ===== src/Monitor/Owned.antt =====
-- internal/monitor/service.go: the errors of a run, and those that end the loop.
use withdraw_bot.Prelude.{
  String, Bool, true, false, ◌||◌, Option, none, some, List, [], ◌∷◌, ==_iff, ◌≡◌, refl, sym, ap,
  ◌∙◌, inl, inr, ◌⊎◌, subst, if◌then◌else◌,
}
use withdraw_bot.Errors.{Error, Result-cases, Sentinel, holds_error, sentinel_number, is_error}
use withdraw_bot.Core.{MonitorResult}
use withdraw_bot.Monitor.{
  Module, Turn, checked, Progress, finish, take_turn, take_turns, hand_over_if, hand_over,
  add_error, should_handle_monitor_results, fatal,
}
use withdraw_bot.Monitor.Turns.{take_turns-ok, take_turns-err}
use withdraw_bot.Monitor.Foreign.{is_same}

-- The error is nil or holds one of the service's sentinels.
pub data Owned : Option Error → Type 0 where
  nil : Owned none
  invalid : {o : Option Error} → holds_error o Sentinel.invalid_monitor_module ≡ true → Owned o
  storage : {o : Option Error} → holds_error o Sentinel.monitor_storage ≡ true → Owned o
  failure : {o : Option Error} → holds_error o Sentinel.monitor_module_failure ≡ true → Owned o
  handling : {o : Option Error} → holds_error o Sentinel.monitor_result_handler ≡ true → Owned o

is_same_refl : (s : Sentinel) → is_same s s ≡ true
is_same_refl s = (==_iff (sentinel_number s) (sentinel_number s)).1 refl

or_true : (a : Bool) → (a || true) ≡ true
or_true true = refl
or_true false = refl

holds-added :
    (before : Option Error) (s : Sentinel) (e : Error)
    → holds_error (add_error before s (some e)) s ≡ true
holds-added none s e = ap (λ x. x || is_error e s) (is_same_refl s)
holds-added (some b) s e =
    ap (λ x. (is_error b s || x) || is_error e s) (is_same_refl s)
    ∙ ap (λ x. x || is_error e s) (or_true (is_error b s))

recoverable :
    (a b c d : Bool)
    → a ≡ false
    → b ≡ false
    → (c ≡ true) ⊎ (d ≡ true)
    → (if a || b then false else (c || d)) ≡ true
recoverable true b c d h k w = cc
recoverable false true c d h k w = cc
recoverable false false true d h k w = refl
recoverable false false false d h k (inl x) = cc
recoverable false false false d h k (inr x) = x

not_fatal :
    (a b c : Bool) (e : Error)
    → (if (if a || b then false else c) then none else some e) ≡ none
    → (a ≡ false) × (b ≡ false)
not_fatal true b c e h = cc
not_fatal false true c e h = cc
not_fatal false false c e h = (refl, refl)

-- An error that holds neither of the two sentinels that end the loop does not end it.
pub Owned-fatal :
    (o : Option Error)
    → Owned o
    → holds_error o Sentinel.invalid_monitor_module ≡ false
    → holds_error o Sentinel.monitor_storage ≡ false
    → fatal o ≡ none
Owned-fatal none w h k = refl
Owned-fatal (some e) (invalid x) h k = cc
Owned-fatal (some e) (storage x) h k = cc
Owned-fatal (some e) (failure x) h k =
    ap (λ b. if b then none else some e) (recoverable _ _ _ _ h k (inl x))
Owned-fatal (some e) (handling x) h k =
    ap (λ b. if b then none else some e) (recoverable _ _ _ _ h k (inr x))

pub fatal-none :
    (o : Option Error)
    → fatal o ≡ none
    → (holds_error o Sentinel.invalid_monitor_module ≡ false)
      × (holds_error o Sentinel.monitor_storage ≡ false)
fatal-none none h = (refl, refl)
fatal-none (some e) h =
    not_fatal _ _
      (is_error e Sentinel.monitor_module_failure || is_error e Sentinel.monitor_result_handler) e h

Owned-add_error :
    (before : Option Error) (s : Sentinel) (o : Option Error)
    → (holds_error (add_error before s o) s ≡ true → Owned (add_error before s o))
    → Owned before
    → Owned (add_error before s o)
Owned-add_error before s none c w = w
Owned-add_error before s (some e) c w = c (holds-added before s e)

module _ (error_text : Error → String) where
  take_turn-Owned :
      (turn : Turn) (m : Module) (p : Progress)
      → Owned p.error
      → Owned (take_turn error_text turn m p).error
  unfolding take_turn
  take_turn-Owned turn m p w =
      Owned-add_error _ Sentinel.monitor_storage _ (λ x. storage x)
        (Owned-add_error p.error Sentinel.monitor_module_failure _ (λ x. failure x) w)

  pub take_turns-Owned :
      (turns : List Turn) (p : Progress)
      → Owned p.error
      → Owned (take_turns error_text turns p).0.error
  unfolding take_turns
  take_turns-Owned [] p w = w
  take_turns-Owned (turn ∷ turns) p w =
      elim (Result-cases (checked turn.monitor_module))
        as (λ _. Owned (take_turns error_text (turn ∷ turns) p).0.error) [
          | inl (m, e) ↦
              subst (λ q. Owned q.0.error) (sym (take_turns-ok error_text turn turns p m e).0)
                (take_turns-Owned turns (take_turn error_text turn m p)
                  (take_turn-Owned turn m p w))
          | inr (x, e) ↦
              subst (λ q. Owned q.0.error) (sym (take_turns-err error_text turn turns p x e).0)
                (Owned-add_error p.error Sentinel.invalid_monitor_module (some x) (λ y. invalid y)
                  w)
        ]

hand_over_if-Owned :
    (b : Bool) (handle : List MonitorResult → Option Error) (p : Progress)
    → Owned p.error
    → Owned (hand_over_if b handle p).error
hand_over_if-Owned true handle p w =
    Owned-add_error p.error Sentinel.monitor_result_handler (handle p.results) (λ x. handling x) w
hand_over_if-Owned false handle p w = w

pub finish-Owned :
    (o : Option (List MonitorResult → Option Error)) (q : Progress × Bool)
    → Owned q.0.error
    → Owned (finish o q).error
unfolding hand_over
finish-Owned o (p, false) w = w
finish-Owned none (p, true) w = w
finish-Owned (some handle) (p, true) w =
    hand_over_if-Owned (should_handle_monitor_results p.error) handle p w
