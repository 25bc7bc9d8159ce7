-- ===== src/Withdraw/Safety.antt =====
-- internal/withdraw/service.go: what an execution may hand to the network, and what stays true of
-- the pending withdrawal over any sequence of executions.
use withdraw_bot.Prelude.{[], ◌∷◌, ◌++◌, ◌≡◌, ◌⊎◌, inl, inr}
use withdraw_bot.Withdraw.Types.{WithdrawalTrigger, Service, State}
use withdraw_bot.Withdraw.Attempts.{Outcome}
use withdraw_bot.Withdraw.Execute.{execute_full_exit}
use withdraw_bot.Withdraw.Outcomes.{
  Cleared, Run, refused, empty, unsimulated, waiting, rejected, submitted, unrecorded,
}
use withdraw_bot.Withdraw.Runs.{execute_full_exit-Run}

module _ (service : Service) (trigger : WithdrawalTrigger) (s : State) where
  -- An execution hands out no transaction, or exactly one, and then all of this has held: the
  -- service is configured, the position has shares and belongs to the signer, the simulation of
  -- the full exit succeeded, and no earlier submission was within the replacement timeout.
  pub hands_only-Cleared :
      let s' = (execute_full_exit service trigger s).2 in
      (s'.handed ≡ s.handed)
      ⊎ ((c : Cleared service s) × (s'.handed ≡ s.handed ++ (c.sub.signed ∷ [])))
  hands_only-Cleared =
      by_run (execute_full_exit service trigger s) (execute_full_exit-Run service trigger s)
    where
      by_run :
          (o : Outcome)
          → Run service trigger s o
          → (o.2.handed ≡ s.handed)
            ⊎ ((c : Cleared service s) × (o.2.handed ≡ s.handed ++ (c.sub.signed ∷ [])))
      by_run o (refused e h) = inl (rw h)
      by_run o (empty r p _ _ _ h) = inl (rw h)
      by_run o (unsimulated x _ h) = inl (rw h)
      by_run o (waiting x p _ _ _ h) = inl (rw h)
      by_run o (rejected c e _ h) = inr (c, rw h)
      by_run o (submitted c _ h) = inr (c, rw h)
      by_run o (unrecorded c e _ h) = inr (c, rw h)
