-- ===== src/Modules/Prices.antt =====
-- internal/monitor/modules/morpho/share_price.go: when the module reports which status.
use withdraw_bot.Prelude.{
  ℕ, zero, suc, ℤ, pos, negsuc, ◌+◌, ◌*◌, ◌≤◌, ◌<◌, ◌≡◌, refl, ◌↔◌, ◌⊎◌, inl, inr, Bool, true,
  false, ◌||◌, leb_ℤ, Option, none, some, List, [], ◌∷◌, map, arith, subst, sym, ap, ◌∙◌, pos_part,
  if◌then◌else◌,
}
use withdraw_bot.Errors.{Result, ok, >>-eq-ok, >>=-eq-ok, is_none}
use withdraw_bot.Core.{Severity, MonitorStatus, Finding, MonitorResult}
use withdraw_bot.Modules.SharePrice.{
  SharePriceModule, is_positive_price, validate_share_price, loss_bps, loss_from, rate_losses,
  report_price, monitor_share_price, read_price,
}
use withdraw_bot.Modules.LossBps.{loss_bps-pos, lost-ge, lost}

-- The price `current` is at most the given one less `t` basis points.
abbrev pub FellFrom : Option ℤ → ℕ → ℕ → Type 0
FellFrom none t current = ⊥
FellFrom (some (pos reference)) t current =
    (0 < reference) × (t * reference + current * 10000 ≤ reference * 10000)
FellFrom (some (negsuc _)) t current = ⊥

-- It fell so far from the baseline or from the previous price.
abbrev pub Fell : SharePriceModule → ℕ → ℕ → Type 0
Fell m t current =
    FellFrom m.baseline_share_price t current ⊎ FellFrom m.previous_share_price t current

-- The report is urgent, with one urgent finding, where `Bad` holds; else a warning, with one warning
-- finding, where `Poor` holds; else it is fine and has no finding.
abbrev pub Graded : Type 0 → Type 0 → MonitorStatus → List Severity → Type 0
Graded Bad Poor status severities =
    (Bad × (status ≡ MonitorStatus.urgent) × (severities ≡ Severity.urgent ∷ []))
    ⊎ ((¬ Bad) × Poor × (status ≡ MonitorStatus.warn) × (severities ≡ Severity.warn ∷ []))
    ⊎ ((¬ Bad) × (¬ Poor) × (status ≡ MonitorStatus.ok) × (severities ≡ []))

abbrev pub severities_of : List Finding → List Severity
severities_of findings = map (λ f. f.severity) findings

reads : (t n : ℕ) {l : ℤ} → l ≡ pos n → leb_ℤ (pos t) l ≡ true → t ≤ n
reads t n e p = ground arith

shows : (t n : ℕ) {l : ℤ} → l ≡ pos n → t ≤ n → leb_ℤ (pos t) l ≡ true
shows t n e p = ground arith

loss_from_set :
    (r current : ℕ)
    → loss_from (some (pos (suc r))) (pos current) ≡ loss_bps (pos (suc r)) (pos current)
unfolding loss_from
loss_from_set r current = ground arith

-- A loss reaches the threshold exactly when the price fell so far.
at_least :
    (t : ℕ) (o : Option ℤ) (current : ℕ)
    → 0 < t
    → (leb_ℤ (pos t) (loss_from o (pos current)) ≡ true) ↔ FellFrom o t current
unfolding loss_from
at_least t none current h = (λ p. ground arith, λ p. elim p [ ])
at_least t (some (pos zero)) current h = (λ p. ground arith, λ p. ground arith)
at_least t (some (pos (suc r))) current h =
    let e = loss_from_set r current ∙ loss_bps-pos (suc r) current in
    let q = lost-ge (suc r) current t (omega arith) h in
    (
      λ p. (omega arith, q.0 (reads t (lost (suc r) current) e p)),
      λ p. shows t (lost (suc r) current) e (q.1 p.1),
    )
at_least t (some (negsuc r)) current h = (λ p. ground arith, λ p. elim p [ ])

or_iff : (a b : Bool) → ((a || b) ≡ true) ↔ ((a ≡ true) ⊎ (b ≡ true))
or_iff true b = (λ _. inl refl, λ _. refl)
or_iff false b = (λ h. inr h, λ h. elim h [ inl e ↦ cc | inr e ↦ e ])

or_of : {a b : Bool} {A B : Type 0} → (a ≡ true) ↔ A → (b ≡ true) ↔ B → ((a || b) ≡ true) ↔ (A ⊎ B)
or_of {a = a} {b = b} p q =
    let o = or_iff a b in
    (
      λ h. elim (o.0 h) [ inl x ↦ inl (p.0 x) | inr y ↦ inr (q.0 y) ],
      λ h. o.1 (elim h [ inl x ↦ inl (p.1 x) | inr y ↦ inr (q.1 y) ]),
    )

pub Graded-iff :
    {A B C D : Type 0} {status : MonitorStatus} {severities : List Severity}
    → A ↔ B
    → C ↔ D
    → Graded A C status severities
    → Graded B D status severities
Graded-iff p q (inl (a, x, y)) = inl (p.0 a, x, y)
Graded-iff p q (inr (inl (a, c, x, y))) = inr (inl (λ b. a (p.1 b), q.0 c, x, y))
Graded-iff p q (inr (inr (a, c, x, y))) = inr (inr (λ b. a (p.1 b), λ d. c (q.1 d), x, y))

-- Two tests in a row, as the modules make them.
pub Graded-tests :
    (bad poor : Bool) (a b c : MonitorStatus × List Finding)
    → a.0 ≡ MonitorStatus.urgent
    → severities_of a.1 ≡ Severity.urgent ∷ []
    → b.0 ≡ MonitorStatus.warn
    → severities_of b.1 ≡ Severity.warn ∷ []
    → c.0 ≡ MonitorStatus.ok
    → severities_of c.1 ≡ []
    → let d : MonitorStatus × List Finding = if bad then a else (if poor then b else c) in
      Graded (bad ≡ true) (poor ≡ true) d.0 (severities_of d.1)
Graded-tests true poor a b c a0 a1 b0 b1 c0 c1 = inl (refl, a0, a1)
Graded-tests false true a b c a0 a1 b0 b1 c0 c1 = inr (inl (λ h. cc, refl, b0, b1))
Graded-tests false false a b c a0 a1 b0 b1 c0 c1 = inr (inr (λ h. cc, λ h. cc, c0, c1))

rated :
    (m : SharePriceModule) (a b : ℤ)
    → let d = rate_losses m a b in
      Graded
        ((leb_ℤ m.urgent_bps a || leb_ℤ m.urgent_bps b) ≡ true)
        ((leb_ℤ m.warn_bps a || leb_ℤ m.warn_bps b) ≡ true)
        d.0
        (severities_of d.1)
unfolding rate_losses
rated m a b =
    Graded-tests (leb_ℤ m.urgent_bps a || leb_ℤ m.urgent_bps b)
      (leb_ℤ m.warn_bps a || leb_ℤ m.warn_bps b) _ _ _ refl refl refl refl refl refl

either-Fell :
    (m : SharePriceModule) (t : ℕ) (z : ℤ) (current : ℕ)
    → z ≡ pos t
    → 0 < t
    → ((leb_ℤ z (loss_from m.baseline_share_price (pos current))
          || leb_ℤ z (loss_from m.previous_share_price (pos current)))
        ≡ true)
      ↔ Fell m t current
either-Fell m t z current e h =
    let first = at_least t m.baseline_share_price current h in
    let second = at_least t m.previous_share_price current h in
    subst
      (λ y.
        ((leb_ℤ y (loss_from m.baseline_share_price (pos current))
            || leb_ℤ y (loss_from m.previous_share_price (pos current)))
          ≡ true)
        ↔ Fell m t current)
      (sym e) (or_of first second)

-- What a configuration that passes holds.
pub record IsWatching (m : SharePriceModule) (warn urgent : ℕ) : Type 0 where
  pub baseline_positive : is_positive_price m.baseline_share_price ≡ true
  pub warn_set : m.warn_bps ≡ pos warn
  pub warn_positive : 0 < warn
  pub urgent_set : m.urgent_bps ≡ pos urgent
  pub in_order : warn ≤ urgent
  pub reader_set : is_none m.reader ≡ false

valid-IsWatching :
    (m : SharePriceModule)
    → validate_share_price m ≡ none
    → IsWatching m (pos_part m.warn_bps) (pos_part m.urgent_bps)
unfolding validate_share_price
valid-IsWatching m h = ground arith

IsWatching-valid :
    (m : SharePriceModule) (w u : ℕ) → IsWatching m w u → validate_share_price m ≡ none
unfolding validate_share_price
IsWatching-valid m w u h = ground arith

read_price-ok :
    (r : Option (Result (Option ℤ))) (current : ℤ)
    → read_price r ≡ ok current
    → (c : ℕ) × (current ≡ pos c) × (r ≡ some (ok (some (pos c)))) × (0 < c)
read_price-ok r (pos c) h = (c, refl, ground arith, ground arith)
read_price-ok r (negsuc c) h = ground arith

graded :
    (m : SharePriceModule) (w u c : ℕ)
    → IsWatching m w u
    → let r = report_price m (pos c) in
      Graded (Fell m u c) (Fell m w c) r.status (severities_of r.findings)
unfolding report_price
graded m w u c h =
    Graded-iff
      (either-Fell m u m.urgent_bps c h.urgent_set (omega (arith, h.warn_positive, h.in_order)))
      (either-Fell m w m.warn_bps c h.warn_set h.warn_positive)
      (rated m (loss_from m.baseline_share_price (pos c))
        (loss_from m.previous_share_price (pos c)))

ok-inj : {a b : MonitorResult} → ok a ≡ ok b → a ≡ b
ok-inj h = cc

price_read : (c : ℕ) → 0 < c → read_price (some (ok (some (pos c)))) ≡ ok (pos c)
price_read c h = ground arith

-- A result of the module means a sound configuration and a positive price. It is urgent exactly
-- when the price fell from the baseline, or from the previous price, by the urgent threshold or
-- more; otherwise it is a warning exactly when it fell by the warning threshold or more; otherwise
-- it is ok. There is one finding, of that severity, except that an ok result has none.
pub monitor_share_price-Graded :
    (m : SharePriceModule) {result : MonitorResult}
    → monitor_share_price m ≡ ok result
    → (w : ℕ) × (u : ℕ) × (c : ℕ) × IsWatching m w u
      × (m.reader ≡ some (ok (some (pos c))))
      × (0 < c)
      × Graded (Fell m u c) (Fell m w c) result.status (severities_of result.findings)
unfolding monitor_share_price
monitor_share_price-Graded m {result = result} h =
    let (v, q) = >>-eq-ok (validate_share_price m) _ h in
    let (current, r, e) = >>=-eq-ok (read_price m.reader) _ q in
    let (c, at, read, positive) = read_price-ok m.reader current r in
    let watching = valid-IsWatching m v in
    let same : report_price m (pos c) ≡ result =
      ok-inj (ap (λ x. ok (report_price m x)) (sym at) ∙ e) in
    (
      pos_part m.warn_bps,
      pos_part m.urgent_bps,
      c,
      watching,
      read,
      positive,
      subst
          (λ r.
            Graded (Fell m (pos_part m.urgent_bps) c) (Fell m (pos_part m.warn_bps) c) r.status
              (severities_of r.findings))
          same (graded m (pos_part m.warn_bps) (pos_part m.urgent_bps) c watching),
    )

-- With a sound configuration and a positive price the module has a result.
monitor_share_price_total :
    (m : SharePriceModule) (w u c : ℕ)
    → IsWatching m w u
    → m.reader ≡ some (ok (some (pos c)))
    → 0 < c
    → (result : MonitorResult) × (monitor_share_price m ≡ ok result)
unfolding monitor_share_price
monitor_share_price_total m w u c h r p =
    let valid = IsWatching-valid m w u h in
    let read : read_price m.reader ≡ ok (pos c) = ap read_price r ∙ price_read c p in
    (report_price m (pos c), rw (valid, read))
