-- ===== src/Monitor/Failures.antt =====
-- internal/monitor/service.go: what the error of a run says, and when the result handler is called.
use withdraw_bot.Prelude.{
  String, Bool, true, false, ◌||◌, ◌&&◌, not, Option, some, List, [], ◌∷◌, ◌≡◌, refl, sym, ap, ap₂,
  ◌<>◌, ◌∙◌, inl, inr, All,
}
use withdraw_bot.Errors.{Error, Sentinel, ok, err, Result-cases, holds_error, is_none}
use withdraw_bot.Core.{Time, MonitorResult}
use withdraw_bot.Monitor.{
  Module, Turn, Progress, checked, observe, take_turn, take_turns, add_error, error_of, wrap,
}
use withdraw_bot.Monitor.Turns.{usable, take_turns-ok, take_turns-err}
use withdraw_bot.Monitor.Foreign.{
  Foreign, checked-Foreign, first, holds-add_error, holds-wrap, is_none-wrap, is_same, neither,
  or_assoc, or_false, problem-Foreign, regroup, second,
}

-- A module of a run may not run.
abbrev pub is_broken : List Turn → Bool
is_broken [] = false
is_broken (turn ∷ turns) = elim (checked turn.monitor_module) [
  | ok m ↦ is_broken turns
  | err _ ↦ true
]

is_broken-ok :
    (turn : Turn) (turns : List Turn) (m : Module)
    → checked turn.monitor_module ≡ ok m
    → is_broken (turn ∷ turns) ≡ is_broken turns
is_broken-ok turn turns m e = rw (e, is_broken)

is_broken-err :
    (turn : Turn) (turns : List Turn) (x : Error)
    → checked turn.monitor_module ≡ err x
    → is_broken (turn ∷ turns) ≡ true
is_broken-err turn turns x e = rw (e, is_broken)

-- One of the modules that had their turns fails.
abbrev pub is_failing : List (Turn × Module) → Bool
is_failing [] = false
is_failing ((turn, m) ∷ had) = not (is_none (error_of m.monitor)) || is_failing had

module _ (error_text : Error → String) where
  abbrev pub store_error : Turn → Module → Option Error
  store_error turn m = turn.insert_monitor_result (observe error_text turn m) turn.stored_at

  -- Storage fails for one of the modules that had their turns.
  abbrev pub is_unstored : List (Turn × Module) → Bool
  is_unstored [] = false
  is_unstored ((turn, m) ∷ had) = not (is_none (store_error turn m)) || is_unstored had

  -- Whether a turn adds the sentinel `s` to the error, and whether one of several does.
  abbrev pub adds : Sentinel → Turn → Module → Bool
  adds s turn m =
      (not (is_none (error_of m.monitor)) && is_same Sentinel.monitor_module_failure s)
      || (not (is_none (store_error turn m)) && is_same Sentinel.monitor_storage s)

  abbrev pub all_add : Sentinel → List (Turn × Module) → Bool
  all_add s [] = false
  all_add s ((turn, m) ∷ had) = adds s turn m || all_add s had

  pub all_add-failure :
      (had : List (Turn × Module)) → all_add Sentinel.monitor_module_failure had ≡ is_failing had
  all_add-failure [] = refl
  all_add-failure ((turn, m) ∷ had) =
      ap₂ (λ x y. x || y)
        (first (not (is_none (error_of m.monitor))) (not (is_none (store_error turn m))))
        (all_add-failure had)

  pub all_add-storage :
      (had : List (Turn × Module)) → all_add Sentinel.monitor_storage had ≡ is_unstored had
  all_add-storage [] = refl
  all_add-storage ((turn, m) ∷ had) =
      ap₂ (λ x y. x || y)
        (second (not (is_none (error_of m.monitor))) (not (is_none (store_error turn m))))
        (all_add-storage had)

  pub all_add-neither :
      (had : List (Turn × Module)) → all_add Sentinel.invalid_monitor_module had ≡ false
  all_add-neither [] = refl
  all_add-neither ((turn, m) ∷ had) =
      ap₂ (λ x y. x || y)
        (neither (not (is_none (error_of m.monitor))) (not (is_none (store_error turn m))))
        (all_add-neither had)

  holds-take_turn :
      (turn : Turn) (m : Module) (p : Progress) (s : Sentinel)
      → holds_error (error_of m.monitor) s ≡ false
      → ((r : MonitorResult) (t : Time) → holds_error (turn.insert_monitor_result r t) s ≡ false)
      → holds_error (take_turn error_text turn m p).error s
        ≡ (holds_error p.error s || adds s turn m)
  unfolding take_turn
  holds-take_turn turn m p s h k =
      let run = wrap ("run monitor module " <> m.id) (error_of m.monitor) in
      let store = wrap ("store monitor result for " <> m.id) (store_error turn m) in
      let one =
        holds-add_error p.error Sentinel.monitor_module_failure run s
          (holds-wrap ("run monitor module " <> m.id) (error_of m.monitor) s ∙ h) in
      let two =
        holds-add_error (add_error p.error Sentinel.monitor_module_failure run)
          Sentinel.monitor_storage store s
          (holds-wrap ("store monitor result for " <> m.id) (store_error turn m) s
            ∙ k (observe error_text turn m) turn.stored_at) in
      two
      ∙ ap₂ (λ x y. x || (not y && is_same Sentinel.monitor_storage s)) one
          (is_none-wrap ("store monitor result for " <> m.id) (store_error turn m))
      ∙ or_assoc (holds_error p.error s) _ _
      ∙ ap
          (λ y.
            holds_error p.error s
            || ((not y && is_same Sentinel.monitor_module_failure s)
                || (not (is_none (store_error turn m)) && is_same Sentinel.monitor_storage s)))
          (is_none-wrap ("run monitor module " <> m.id) (error_of m.monitor))

  -- The sentinels that the turns add, and that of the module that may not run.
  abbrev pub Adds : List Turn → Progress → Sentinel → Type 0
  Adds turns p s =
      let q = take_turns error_text turns p in
      (holds_error q.0.error s ≡ (
        holds_error p.error s
        || (all_add s (usable turns)
            || (is_broken turns && is_same Sentinel.invalid_monitor_module s))))
      × (q.1 ≡ not (is_broken turns))

  Adds-ok :
      (turn : Turn) (turns : List Turn) (p : Progress) (s : Sentinel) (m : Module)
      → checked turn.monitor_module ≡ ok m
      → Foreign s turn
      → Adds turns (take_turn error_text turn m p) s
      → Adds (turn ∷ turns) p s
  Adds-ok turn turns p s m e (f, g) (h, k) =
      let (step, had) = take_turns-ok error_text turn turns p m e in
      let broken = is_broken-ok turn turns m e in
      let one = holds-take_turn turn m p s (checked-Foreign s turn.monitor_module m e f) g in
      (
        ap (λ q. holds_error q.0.error s) step
            ∙ h
            ∙ ap
                (λ x.
                  x
                  || (all_add s (usable turns)
                      || (is_broken turns && is_same Sentinel.invalid_monitor_module s)))
                one
            ∙ regroup (holds_error p.error s) (adds s turn m) (all_add s (usable turns)) _
            ∙ ap₂
                (λ x y.
                  holds_error p.error s
                  || (all_add s x || (y && is_same Sentinel.invalid_monitor_module s)))
                (sym had) (sym broken),
        ap (λ q. q.1) step ∙ k ∙ ap not (sym broken),
      )

  Adds-err :
      (turn : Turn) (turns : List Turn) (p : Progress) (s : Sentinel) (x : Error)
      → checked turn.monitor_module ≡ err x
      → Foreign s turn
      → Adds (turn ∷ turns) p s
  Adds-err turn turns p s x e (f, g) =
      let (step, had) = take_turns-err error_text turn turns p x e in
      let broken = is_broken-err turn turns x e in
      (
        ap (λ q. holds_error q.0.error s) step
            ∙ holds-add_error p.error Sentinel.invalid_monitor_module (some x) s
                (problem-Foreign s turn.monitor_module x e f)
            ∙ ap₂
                (λ x y.
                  holds_error p.error s
                  || (all_add s x || (y && is_same Sentinel.invalid_monitor_module s)))
                (sym had) (sym broken),
        ap (λ q. q.1) step ∙ ap not (sym broken),
      )

  pub take_turns-Adds :
      (turns : List Turn) (p : Progress) (s : Sentinel) → All (Foreign s) turns → Adds turns p s
  unfolding take_turns
  take_turns-Adds [] p s f = (sym (or_false (holds_error p.error s)), refl)
  take_turns-Adds (turn ∷ turns) p s (f, fs) =
      elim (Result-cases (checked turn.monitor_module)) as (λ _. Adds (turn ∷ turns) p s) [
        | inl (m, e) ↦
            Adds-ok turn turns p s m e f
              (take_turns-Adds turns (take_turn error_text turn m p) s fs)
        | inr (x, e) ↦ Adds-err turn turns p s x e f
      ]
