-- ===== src/Adapter/Requests.antt =====
-- internal/withdraw/morpho_adapter.go: which requests the adapter accepts, and what it builds.
use withdraw_bot.Prelude.{ℤ, ◌<◌, pos_part, some, ◌≡◌, ◌≢◌, ◌↔◌, arith}
use withdraw_bot.Errors.{ok}
use withdraw_bot.Core.{FullExitRequest}
use withdraw_bot.Adapter.{MorphoAdapter, validate_vault_client, validate_full_exit_request}

-- A request that the adapter may serve: its vault is set and is the one that the client calls, and
-- the request names that vault, an owner, a receiver, and a positive number of shares.
pub record IsServable (adapter : MorphoAdapter) (request : FullExitRequest) (shares : ℤ)
    : Type 0 where
  pub vault_set : adapter.vault ≢ 0
  pub client_vault : adapter.vault_client.vault ≡ adapter.vault
  pub same_vault : request.vault ≡ adapter.vault
  pub owner_set : request.owner ≢ 0
  pub receiver_set : request.receiver ≢ 0
  pub shares_set : request.shares ≡ some shares
  pub shares_positive : 0 < pos_part shares

-- A request passes validation, with the given shares, exactly when it is servable.
pub validate_full_exit_request-IsServable :
    (adapter : MorphoAdapter) (request : FullExitRequest) (shares : ℤ)
    → (validate_full_exit_request adapter request ≡ ok shares) ↔ IsServable adapter request shares
unfolding validate_full_exit_request validate_vault_client
validate_full_exit_request-IsServable adapter request shares =
    (λ h. ground arith, λ h. ground arith)
