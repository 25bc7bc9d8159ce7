-- ===== src/App/Budget.antt =====
-- internal/app with internal/withdraw: what the bot that a configuration builds may spend.
use withdraw_bot.Prelude.{ℕ, [], ◌∷◌, ◌++◌, ◌≤◌, ◌≡◌, ◌⊎◌, inl, inr, subst}
use withdraw_bot.Errors.{ok}
use withdraw_bot.Ethereum.{SignedTx}
use withdraw_bot.Gas.Bump.{IsWithin, amount}
use withdraw_bot.Withdraw.Types.{State, WithdrawalTrigger}
use withdraw_bot.Withdraw.Execute.{execute_full_exit}
use withdraw_bot.Withdraw.Sequences.{SignsGiven}
use withdraw_bot.Withdraw.Budget.{hands_only-IsCapped}
use withdraw_bot.App.Runtime.{Held, Dependencies, Runtime}
use withdraw_bot.App.Services.{Services, build_monitor_services}
use withdraw_bot.App.Run.{LoopDependencies}
use withdraw_bot.App.Opening.{Leaves}
use withdraw_bot.App.Released.{
  max_fee_of, max_tip_of, IsBudgeted, serving, build_monitor_services-Leaves,
}

-- Of the services that are built from a configuration, with a signer that signs what it is given: the
-- configuration spells two amounts in gwei, and an execution hands out no transaction, or exactly
-- one, whose fee and tip are at most these amounts.
pub built_services_spend :
    (deps : Dependencies) (loops : LoopDependencies) (runtime : Runtime) (held : Held)
    (trigger : WithdrawalTrigger) (s : State) {after : Held} {built : Services}
    → build_monitor_services deps loops.services runtime held ≡ (after, ok built)
    → SignsGiven built.withdraw
    → let s' = (execute_full_exit built.withdraw trigger s).2 in
      (max_fee : ℕ) × (max_tip : ℕ) × (max_fee_of runtime.config ≡ ok max_fee)
      × (max_tip_of runtime.config ≡ ok max_tip)
      × ((s'.handed ≡ s.handed)
          ⊎ ((signed : SignedTx) × (s'.handed ≡ s.handed ++ (signed ∷ []))
              × (amount signed.tx.gas_fee_cap ≤ max_fee)
              × (amount signed.tx.gas_tip_cap ≤ max_tip)))
built_services_spend deps loops runtime held trigger s {built} h signs =
    let (_, budget) =
      subst (Leaves (IsBudgeted runtime) (serving runtime.config held) held) h
        (build_monitor_services-Leaves deps loops runtime held) in
    let (max_fee, max_tip, fee, tip, fee_cap, tip_cap) = budget in
    (
      max_fee,
      max_tip,
      fee,
      tip,
      elim (hands_only-IsCapped built.withdraw trigger s signs) [
        | inl same ↦ inl same
        | inr (signed, handed, capped) ↦ inr (
          signed,
          handed,
          subst (IsWithin signed.tx.gas_fee_cap) fee_cap capped.0,
          subst (IsWithin signed.tx.gas_tip_cap) tip_cap capped.1,
        )
      ],
    )
