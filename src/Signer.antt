-- ===== src/Signer.antt =====
-- internal/signer/signer.go: the signer that holds a private key.
pub mod Keys
use withdraw_bot.Prelude.{ℕ, ℤ, Option, none, some}
use withdraw_bot.Errors.{Error, Result, ok, err, map_err}
use withdraw_bot.Core.{Address}
use withdraw_bot.Ethereum.{DynamicFeeTx, SignedTx}
use withdraw_bot.Withdraw.Types.{Signer}

-- `types.SignTx` of go-ethereum with the latest signer of a chain: the transaction, the chain and
-- the key.
abbrev pub SignTx : Type 0
SignTx = DynamicFeeTx → ℤ → ℕ → Result SignedTx

pub record PrivateKeyService : Type 0 where
  pub key : ℕ
  pub address : Address

module _ (sign_tx : SignTx) where
  -- `SignTransaction`, of which both arguments may be nil.
  unfoldable pub sign_transaction :
      PrivateKeyService → Option DynamicFeeTx → Option ℤ → Result SignedTx
  sign_transaction service none chain_id = err (Error.message "transaction is nil")
  sign_transaction service (some tx) none = err (Error.message "chain ID is nil")
  sign_transaction service (some tx) (some chain_id) =
      map_err (Error.wrapped "sign transaction") (sign_tx tx chain_id service.key)

  -- The service as the withdrawal service takes it.
  abbrev pub private_key_signer : PrivateKeyService → Signer
  private_key_signer service = record {
    address = ok service.address;
    sign_transaction = λ tx chain_id. sign_transaction service (some tx) (some chain_id);
  }
