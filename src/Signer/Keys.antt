-- ===== src/Signer/Keys.antt =====
-- internal/signer/signer.go: what the private key service signs.
use withdraw_bot.Prelude.{ℕ, ℤ, ◌≡◌}
use withdraw_bot.Errors.{ok}
use withdraw_bot.Ethereum.{DynamicFeeTx, SignedTx}
use withdraw_bot.Withdraw.Types.{Signer}
use withdraw_bot.Signer.{SignTx}

-- `types.SignTx` returns the transaction that it is given, with a signature.
abbrev pub KeepsTx : SignTx → Type 0
KeepsTx sign_tx =
    (tx : DynamicFeeTx) (chain_id : ℤ) (key : ℕ) (signed : SignedTx)
    → sign_tx tx chain_id key ≡ ok signed
    → signed.tx ≡ tx
