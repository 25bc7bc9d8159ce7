-- ===== src/Monitor/Foreign.antt =====
-- internal/monitor/service.go: errors from outside, and the sentinels that `errors.Join` adds.
use withdraw_bot.Prelude.{
  String, Bool, true, false, ◌||◌, ◌&&◌, not, Option, none, some, ◌==◌, ◌≡◌, refl, sym, ap, str_eq,
  ◌<>◌, ◌∙◌, subst,
}
use withdraw_bot.Errors.{
  Error, Sentinel, Result, ok, err, fail_if, ◌orelse◌, ◌>>◌, >>-eq-ok, holds_error, is_none,
  sentinel_number, is_error,
}
use withdraw_bot.Core.{Time, MonitorResult}
use withdraw_bot.Monitor.{Module, Turn, checked, add_error, error_of, wrap}

abbrev pub is_same : Sentinel → Sentinel → Bool
is_same a b = sentinel_number a == sentinel_number b

abbrev pub ForeignModule : Sentinel → Option Module → Type 0
ForeignModule s none = Unit
ForeignModule s (some m) =
    (holds_error m.validate_config s ≡ false) × (holds_error (error_of m.monitor) s ≡ false)

-- No error of the turn's module or of storage wraps the service's own sentinel `s`, which is
-- not exported.
abbrev pub Foreign : Sentinel → Turn → Type 0
Foreign s turn =
    ForeignModule s turn.monitor_module
    × ((r : MonitorResult) (t : Time) → holds_error (turn.insert_monitor_result r t) s ≡ false)

pub or_assoc : (a b c : Bool) → ((a || b) || c) ≡ (a || (b || c))
or_assoc true b c = refl
or_assoc false b c = refl

pub or_false : (a : Bool) → (a || false) ≡ a
or_false true = refl
or_false false = refl

pub holds-add_error :
    (before : Option Error) (t : Sentinel) (o : Option Error) (s : Sentinel)
    → holds_error o s ≡ false
    → holds_error (add_error before t o) s
      ≡ (holds_error before s || (not (is_none o) && is_same t s))
holds-add_error before t none s h = sym (or_false (holds_error before s))
holds-add_error none t (some e) s h = ap (λ x. is_same t s || x) h ∙ or_false (is_same t s)
holds-add_error (some b) t (some e) s h =
    ap (λ x. (is_error b s || is_same t s) || x) h ∙ or_false _

pub holds-wrap :
    (text : String) (o : Option Error) (s : Sentinel)
    → holds_error (wrap text o) s ≡ holds_error o s
holds-wrap text none s = refl
holds-wrap text (some e) s = refl

pub is_none-wrap : (text : String) (o : Option Error) → is_none (wrap text o) ≡ is_none o
is_none-wrap text none = refl
is_none-wrap text (some e) = refl

pub module_inj : {a b : Module} → ok a ≡ ok b → a ≡ b
module_inj h = cc

pub checked-Foreign :
    (s : Sentinel) (o : Option Module) (m : Module)
    → checked o ≡ ok m
    → ForeignModule s o
    → holds_error (error_of m.monitor) s ≡ false
unfolding checked
checked-Foreign s none m e f = cc
checked-Foreign s (some n) m e (_, f) =
    let (_, same) = >>-eq-ok _ (ok n) e in
    subst (λ x. holds_error (error_of x.monitor) s ≡ false) (module_inj same) f

-- What a refused module answers.
abbrev pub problem_holds : Sentinel → Result Module → Bool
problem_holds s (ok _) = false
problem_holds s (err x) = is_error x s

pub refusal :
    (s : Sentinel) (b : Bool) (text wrapping : String) (o : Option Error) (n : Module)
    → holds_error o s ≡ false
    → problem_holds s ((fail_if b (Error.message text) orelse wrap wrapping o) >> ok n) ≡ false
refusal s true text wrapping o n h = refl
refusal s false text wrapping none n h = refl
refusal s false text wrapping (some e) n h = h

pub problem-Foreign :
    (s : Sentinel) (o : Option Module) (x : Error)
    → checked o ≡ err x
    → ForeignModule s o
    → is_error x s ≡ false
unfolding checked
problem-Foreign s none x e f = ap (problem_holds s) (sym e)
problem-Foreign s (some n) x e (f, _) =
    ap (problem_holds s) (sym e)
    ∙ refusal s (str_eq n.id "") "monitor module id is empty" ("validate monitor module " <> n.id)
        n.validate_config n f

pub first : (a b : Bool) → ((a && true) || (b && false)) ≡ a
first true b = refl
first false true = refl
first false false = refl

pub second : (a b : Bool) → ((a && false) || (b && true)) ≡ b
second true true = refl
second true false = refl
second false true = refl
second false false = refl

pub neither : (a b : Bool) → ((a && false) || (b && false)) ≡ false
neither true true = refl
neither true false = refl
neither false true = refl
neither false false = refl

pub regroup : (a b c d : Bool) → ((a || b) || (c || d)) ≡ (a || ((b || c) || d))
regroup true b c d = refl
regroup false true c d = refl
regroup false false c d = refl
