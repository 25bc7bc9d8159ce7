-- ===== src/Modules/Exits.antt =====
-- internal/monitor/modules/morpho/withdraw_liquidity.go: when the module reports which status.
use withdraw_bot.Prelude.{
  ℤ, pos, ◌<ℤ◌, ◌≤ℤ◌, ◌≡◌, ◌≢◌, refl, ◌↔◌, Bool, true, false, Option, none, some, List, [], ◌∷◌,
  ◌++◌, arith, subst, sym, ap, ◌∙◌,
}
use withdraw_bot.Errors.{Result, ok, >>-eq-ok, >>=-eq-ok, is_none}
use withdraw_bot.Core.{
  Address, Severity, MonitorStatus, Finding, MonitorResult, PositionSnapshot, FullExitSimulation,
}
use withdraw_bot.Modules.Liquidity.{
  ExitSimulator, LiquidityModule, validate_liquidity, validate_position, positive_balance,
  simulation_or_failed, simulate_position, simulate_with, not_negative, read_idle, expected_exit,
  is_below, rate_idle, rate_exit, report_liquidity, monitor_liquidity, is_positive_amount,
}
use withdraw_bot.Modules.Prices.{Graded, Graded-iff, Graded-tests, severities_of}

-- The amount is below a threshold that is set.
abbrev pub Short : ℤ → Option ℤ → Type 0
Short idle none = ⊥
Short idle (some threshold) = idle <ℤ threshold

Short-iff : (idle : ℤ) (o : Option ℤ) → (is_below (some idle) o ≡ true) ↔ Short idle o
Short-iff idle none = (λ h. cc, λ h. elim h [ ])
Short-iff idle (some t) = (λ h. ground arith, λ h. ground arith)

idle-Graded :
    (m : LiquidityModule) (idle : ℤ)
    → let d = rate_idle m idle in
      Graded (Short idle m.idle_urgent) (Short idle m.idle_warn) d.0 (severities_of d.1)
unfolding rate_idle
idle-Graded m idle = Graded-iff (Short-iff idle m.idle_urgent) (Short-iff idle m.idle_warn) (
    Graded-tests (is_below (some idle) m.idle_urgent) (is_below (some idle) m.idle_warn) _ _ _ refl
      refl refl refl refl refl)

-- A simulation that succeeds leaves the grade of the idle assets; one that fails makes the report
-- urgent, and adds an urgent finding.
abbrev pub GradedExit : LiquidityModule → ℤ → Bool → MonitorStatus → List Severity → Type 0
GradedExit m idle true status severities =
    Graded (Short idle m.idle_urgent) (Short idle m.idle_warn) status severities
GradedExit m idle false status severities =
    (status ≡ MonitorStatus.urgent)
    × (before : List Severity) × (idle_status : MonitorStatus) × Graded (Short idle m.idle_urgent)
        (Short idle m.idle_warn) idle_status before
    × (severities ≡ before ++ (Severity.urgent ∷ []))

severities-append :
    (a b : List Finding) → severities_of (a ++ b) ≡ severities_of a ++ severities_of b
severities-append [] b = refl
severities-append (f ∷ a) b = ap (λ s. f.severity ∷ s) (severities-append a b)

exit_graded :
    (m : LiquidityModule) (idle : ℤ) (success : Bool) (expected : ℤ)
    → let r = report_liquidity m idle success expected in
      GradedExit m idle success r.status (severities_of r.findings)
unfolding report_liquidity rate_exit
exit_graded m idle true expected = idle-Graded m idle
exit_graded m idle false expected = (
  refl,
  severities_of (rate_idle m idle).1,
  (rate_idle m idle).0,
  idle-Graded m idle,
  severities-append (rate_idle m idle).1 _,
)

-- The exit that is simulated is that of the module's vault, owner and receiver, and of every share
-- of a position that names the same three; a simulation that answers an error counts as failed.
pub record IsSimulated (m : LiquidityModule) (simulation : FullExitSimulation) : Type 0 where
  pub simulator : ExitSimulator
  pub snapshot : PositionSnapshot
  pub balance : ℤ
  pub simulator_set : m.exit_simulator ≡ some simulator
  pub snapshot_read : simulator.position ≡ ok snapshot
  pub balance_set : snapshot.share_balance ≡ some balance
  pub balance_positive : pos 0 <ℤ balance
  pub same_vault : snapshot.vault ≡ m.vault
  pub same_owner : snapshot.owner ≡ m.owner
  pub same_receiver : snapshot.receiver ≡ m.receiver
  pub simulated :
      simulation
      ≡ simulation_or_failed (
          simulator.simulate_full_exit (record {
            vault = m.vault;
            owner = m.owner;
            receiver = m.receiver;
            shares = some balance;
          }))

position-valid :
    (m : LiquidityModule) (p : PositionSnapshot)
    → validate_position m p ≡ none
    → (p.vault ≡ m.vault) × (p.owner ≡ m.owner) × (p.receiver ≡ m.receiver)
unfolding validate_position
position-valid m p h = (ground arith, ground arith, ground arith)

positive_balance-ok :
    (o : Option ℤ) (b : ℤ) → positive_balance o ≡ ok b → (o ≡ some b) × (pos 0 <ℤ b)
positive_balance-ok o b h = (ground arith, ground arith)

ok-inj : {A : Type 0} {a b : A} → ok a ≡ ok b → a ≡ b
ok-inj h = cc

simulate_position-IsSimulated :
    (m : LiquidityModule) (o : Option ExitSimulator) (s : FullExitSimulation)
    → m.exit_simulator ≡ o
    → simulate_position m o ≡ ok s
    → IsSimulated m s
unfolding simulate_position simulate_with
simulate_position-IsSimulated m none s e h = cc
simulate_position-IsSimulated m (some simulator) s e h =
    let (p, read, h1) = >>=-eq-ok simulator.position _ h in
    let (b, has, h2) = >>=-eq-ok (positive_balance p.share_balance) _ h1 in
    let (v, h3) = >>-eq-ok (validate_position m p) _ h2 in
    let (set, positive) = positive_balance-ok p.share_balance b has in
    let (vault, owner, receiver) = position-valid m p v in
    record {
      simulator = simulator;
      snapshot = p;
      balance = b;
      simulator_set = e;
      snapshot_read = read;
      balance_set = set;
      balance_positive = positive;
      same_vault = vault;
      same_owner = owner;
      same_receiver = receiver;
      simulated = sym (ok-inj h3);
    }

-- The reader answers this amount for the vault, and it is not negative.
abbrev pub IsIdle : Option (Address → Result (Option ℤ)) → Address → ℤ → Type 0
IsIdle none vault idle = ⊥
IsIdle (some read) vault idle = (read vault ≡ ok (some idle)) × (pos 0 ≤ℤ idle)

not_negative-ok :
    (o : Option ℤ) (idle : ℤ) → not_negative o ≡ ok idle → (o ≡ some idle) × (pos 0 ≤ℤ idle)
not_negative-ok o idle h = (ground arith, ground arith)

read_idle-IsIdle :
    (o : Option (Address → Result (Option ℤ))) (vault : Address) (idle : ℤ)
    → read_idle o vault ≡ ok idle
    → IsIdle o vault idle
read_idle-IsIdle none vault idle h = cc
read_idle-IsIdle (some read) vault idle h =
    let (o, answer, h1) = >>=-eq-ok (read vault) _ h in
    let (set, low) = not_negative-ok o idle h1 in (answer ∙ ap ok set, low)

-- What a configuration that passes holds.
pub record IsSound (m : LiquidityModule) : Type 0 where
  pub reader_set : is_none m.idle_asset_reader ≡ false
  pub simulator_set : is_none m.exit_simulator ≡ false
  pub owner_set : m.owner ≢ 0
  pub receiver_set : m.receiver ≢ 0
  pub vault_set : m.vault ≢ 0
  pub warn_positive : is_positive_amount m.idle_warn ≡ true
  pub urgent_positive : is_positive_amount m.idle_urgent ≡ true
  pub in_order : is_below m.idle_warn m.idle_urgent ≡ false

validate-IsSound : (m : LiquidityModule) → (validate_liquidity m ≡ none) ↔ IsSound m
unfolding validate_liquidity
validate-IsSound m = (λ h. ground arith, λ h. ground arith)

-- A result of the module means a sound configuration, idle assets that are known and not negative,
-- and a simulation of the exit of the whole position. The status and the severities of the findings
-- are those of the idle assets (urgent below the urgent threshold, a warning below the warning
-- threshold, otherwise ok), and a simulation that failed makes the status urgent and adds one
-- urgent finding.
pub monitor_liquidity-GradedExit :
    (m : LiquidityModule) {result : MonitorResult}
    → monitor_liquidity m ≡ ok result
    → IsSound m
      × (idle : ℤ) × (simulation : FullExitSimulation) × IsIdle m.idle_asset_reader m.vault idle
      × IsSimulated m simulation
      × GradedExit m idle simulation.success result.status (severities_of result.findings)
unfolding monitor_liquidity
monitor_liquidity-GradedExit m {result = result} h =
    let (v, h1) = >>-eq-ok (validate_liquidity m) _ h in
    let (idle, read, h2) = >>=-eq-ok (read_idle m.idle_asset_reader m.vault) _ h1 in
    let (s, simulated, h3) = >>=-eq-ok (simulate_position m m.exit_simulator) _ h2 in
    let (expected, x, h4) = >>=-eq-ok (expected_exit s) _ h3 in
    (
      (validate-IsSound m).0 v,
      idle,
      s,
      read_idle-IsIdle m.idle_asset_reader m.vault idle read,
      simulate_position-IsSimulated m m.exit_simulator s refl simulated,
      subst (λ r. GradedExit m idle s.success r.status (severities_of r.findings)) (ok-inj h4)
          (exit_graded m idle s.success expected),
    )
