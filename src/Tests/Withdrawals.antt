-- ===== src/Tests/Withdrawals.antt =====
-- internal/withdraw/service.go: executions in the small world.
use withdraw_bot.Prelude.{
  ℕ, ℤ, pos, true, false, none, some, List, [], ◌∷◌, ◌≡◌, ◌⊎◌, refl, ap, arith, ◌-ℤ◌,
}
use withdraw_bot.Errors.{ok}
use withdraw_bot.Core.{MonitorResult, MonitorStatus, Severity}
use withdraw_bot.Alerts.{handle_monitor_results}
use withdraw_bot.Alerts.Exits.{alert_service_of, after_actions, alerted_exit_submits}
use withdraw_bot.Gas.{FeeCaps}
use withdraw_bot.Gas.Bump.{caps}
use withdraw_bot.Ethereum.{SignedTx}
use withdraw_bot.Adapter.Exits.{RedeemsAll, exits_redeem_all}
use withdraw_bot.Withdraw.Types.{State}
use withdraw_bot.Withdraw.Fees.{is_waiting, sub_time, buffered_gas, build_dynamic_fee_tx}
use withdraw_bot.Withdraw.Execute.{execute_full_exit}
use withdraw_bot.Withdraw.Pricing.{HasPayable}
use withdraw_bot.Withdraw.Outcomes.{Run, Cleared}
use withdraw_bot.Withdraw.Runs.{execute_full_exit-Run}
use withdraw_bot.Withdraw.Safety.{hands_only-Cleared}
use withdraw_bot.Withdraw.Sequences.{after, after-HasPayable, OnNonce, after-OnNonce}
use withdraw_bot.Withdraw.Liveness.{
  Accepts, first_exit_submits, replacement_submits, submitted_outcome, submission_of,
}
use withdraw_bot.Tests.World.{
  codec, vault_adapter, service_at, urgent, pending_exit, idle_state, pending_state,
}
use withdraw_bot.Tests.Position.{candidate, finds, is_built, reachable, signs}

waits : is_waiting (service_at (pos 1030)) pending_exit ≡ true
unfolding is_waiting sub_time ◌-ℤ◌
waits = refl

late : is_waiting (service_at (pos 1060)) pending_exit ≡ false
unfolding is_waiting sub_time ◌-ℤ◌
late = refl

abbrev signed_with : (now : ℤ) → ℕ → FeeCaps → SignedTx
signed_with now n fees = record {
  tx =
      build_dynamic_fee_tx candidate (pos 1) n
        (buffered_gas 50000 (service_at now).gas_limit_buffer_bps) fees;
  hash = n;
}

hash_of :
    (now : ℤ) (n : ℕ) (fees : FeeCaps)
    → (build_dynamic_fee_tx candidate
        (pos 1)
        n
        (buffered_gas 50000 (service_at now).gas_limit_buffer_bps)
        fees).nonce
      ≡ n
unfolding build_dynamic_fee_tx
hash_of now n fees = refl

abbrev accepts :
    (now : ℤ) (s : State) (n : ℕ) (fees : FeeCaps)
    → Accepts (service_at now) urgent s (reachable now) n fees
accepts now s n fees = record {
  candidate = candidate;
  signed = signed_with now n fees;
  built = is_built;
  signed_here =
      ap (λ hash. ok (record { tx = (signed_with now n fees).tx; hash = hash }))
        (hash_of now n fees);
  sent = refl;
  stored = refl;
}

first_exit_submits_example :
    execute_full_exit (service_at (pos 1000)) urgent idle_state
    ≡ submitted_outcome (service_at (pos 1000)) urgent idle_state (reachable (pos 1000)) (
        submission_of
          (service_at (pos 1000))
          urgent
          idle_state
          (reachable (pos 1000))
          5
          (caps 110 10)
          candidate
          (signed_with (pos 1000) 5 (caps 110 10)))
first_exit_submits_example =
    first_exit_submits (service_at (pos 1000)) urgent idle_state (reachable (pos 1000)) 5 1000 500
      50 100 10 refl refl (omega arith) (omega arith) refl refl refl (omega arith) (omega arith)
      (accepts (pos 1000) idle_state 5 (caps 110 10))

replacement_submits_example :
    execute_full_exit (service_at (pos 1060)) urgent pending_state
    ≡ submitted_outcome (service_at (pos 1060)) urgent pending_state (reachable (pos 1060)) (
        submission_of
          (service_at (pos 1060))
          urgent
          pending_state
          (reachable (pos 1060))
          5
          (caps 121 11)
          candidate
          (signed_with (pos 1060) 5 (caps 121 11)))
replacement_submits_example =
    replacement_submits (service_at (pos 1060)) urgent pending_state (reachable (pos 1060))
      pending_exit 1000 500 50 110 10 refl late refl refl (omega arith) (omega arith) (omega arith)
      (omega arith) (omega arith) (accepts (pos 1060) pending_state 5 (caps 121 11))

execute_full_exit-Run_example :
    Run
      (service_at (pos 1000))
      urgent
      idle_state
      (execute_full_exit (service_at (pos 1000)) urgent idle_state)
execute_full_exit-Run_example = execute_full_exit-Run (service_at (pos 1000)) urgent idle_state

hands_only-Cleared_example :
    let s' = (execute_full_exit (service_at (pos 1000)) urgent idle_state).2 in
    (s'.handed ≡ [])
    ⊎ ((c : Cleared (service_at (pos 1000)) idle_state) × (s'.handed ≡ c.sub.signed ∷ []))
hands_only-Cleared_example = hands_only-Cleared (service_at (pos 1000)) urgent idle_state

exits_redeem_all_example :
    let s' = (execute_full_exit (service_at (pos 1000)) urgent idle_state).2 in
    (s'.handed ≡ [])
    ⊎ ((signed : SignedTx) × (s'.handed ≡ signed ∷ [])
        × RedeemsAll codec vault_adapter (service_at (pos 1000)) signed)
exits_redeem_all_example =
    exits_redeem_all codec vault_adapter (service_at (pos 1000)) urgent idle_state refl
      (signs (pos 1000))

payable : HasPayable (some pending_exit)
payable = record {
  fee_set = refl;
  tip_set = refl;
  tip_positive = omega arith;
  tip_le_fee = omega arith;
}

after-HasPayable_example :
    HasPayable
      (after
        ((service_at (pos 1030), urgent) ∷ (service_at (pos 1060), urgent) ∷ [])
        pending_state).pending
after-HasPayable_example =
    after-HasPayable ((service_at (pos 1030), urgent) ∷ (service_at (pos 1060), urgent) ∷ [])
      pending_state payable

after-OnNonce_example :
    OnNonce 5 pending_state
      (after ((service_at (pos 1030), urgent) ∷ (service_at (pos 1060), urgent) ∷ []) pending_state)
after-OnNonce_example =
    after-OnNonce ((service_at (pos 1030), urgent) ∷ (service_at (pos 1060), urgent) ∷ [])
      pending_state pending_exit refl
      ((signs (pos 1030), finds (pos 1030)), ((signs (pos 1060), finds (pos 1060)), tt))

-- Two findings of one result: a warning, and the loss of the share price.
abbrev results : List MonitorResult
results =
    record {
      module_id = "share_price_loss";
      status = MonitorStatus.urgent;
      observed_at = pos 1000;
      metrics = [];
      findings =
          record { key = "stale_data"; severity = Severity.warn; message = "stale"; evidence = [] }
          ∷ record {
            key = "share_price_loss";
            severity = Severity.urgent;
            message = "loss";
            evidence = [];
          }
          ∷ [];
    }
    ∷ []

alerted_exit_submits_example :
    let done =
      (handle_monitor_results
        (alert_service_of (λ past. service_at (pos 1000)) (λ past text. none) idle_state)
        results
        []).0 in
    (later : List SignedTx) × ((after_actions
        (λ past. service_at (pos 1000))
        []
        done
        idle_state).handed
      ≡ signed_with (pos 1000) 5 (caps 110 10) ∷ later)
alerted_exit_submits_example =
    alerted_exit_submits (λ past. service_at (pos 1000)) (λ past text. none) idle_state results
      "loss" urgent [] (reachable (pos 1000)) 5 1000 500 50 100 10 refl refl refl refl (omega arith)
      (omega arith) refl refl refl (omega arith) (omega arith)
      (accepts (pos 1000) idle_state 5 (caps 110 10))
