-- ===== src/Vault/Client.antt =====
-- internal/morpho/vault_client.go and abi.go: the calls of the vault's contract.
use withdraw_bot.Prelude.{ℕ, ℤ, String, none, List, [], ◌∷◌, ◌<>◌, length, decimal_ℕ}
use withdraw_bot.Errors.{Error, Result, ok, err, ◌>>=◌, map_err}
use withdraw_bot.Core.{Address}
use withdraw_bot.Ethereum.{CallMsg, MultiClient, call_contract}

-- A value of an ABI argument or output, by the Go type that the decoder of go-ethereum gives it:
-- `*big.Int`, `uint64`, `common.Address`, `[]byte`, and any other with its `fmt.Sprint` text.
pub data AbiValue : Type 0 where
  big_int : ℤ → AbiValue
  uint64 : ℕ → AbiValue
  address : Address → AbiValue
  bytes : List ℕ → AbiValue
  other : String → AbiValue

-- `abi.ABI` of go-ethereum: packing a call and unpacking its output.
pub record Abi : Type 0 where
  pub pack : String → List AbiValue → Result (List ℕ)
  pub unpack : String → List ℕ → Result (List AbiValue)

-- What the code takes from go-ethereum: the two parsed ABIs, `Address.Hex` and `hexutil.Encode`.
pub record Codec : Type 0 where
  pub vault_abi : Abi
  pub erc20_abi : Abi
  pub address_hex : Address → String
  pub bytes_hex : List ℕ → String

pub record VaultClient : Type 0 where
  pub ethereum : MultiClient
  pub vault : Address

-- A call with no sender and no value: `geth.CallMsg{To: …, Data: …}`.
abbrev pub view_call : Address → List ℕ → CallMsg
view_call to payload = record { sender = 0; to = to; value = none; payload = payload }

module _ (codec : Codec) where
  unfoldable pub call : VaultClient → String → List AbiValue → Result (List AbiValue)
  call client method args = do
    packed ←
        map_err (Error.wrapped ("pack " <> method <> " call")) (codec.vault_abi.pack method args)
    raw ←
        map_err (Error.wrapped ("call " <> method))
          (call_contract client.ethereum (view_call client.vault packed))
    map_err (Error.wrapped ("unpack " <> method)) (codec.vault_abi.unpack method raw)

  -- The one output of a call, if it is a `*big.Int`.
  unfoldable pub uint256_output : String → List AbiValue → Result ℤ
  uint256_output method (AbiValue.big_int value ∷ []) = ok value
  uint256_output method (value ∷ []) =
      err (Error.message ("unpack " <> method <> " output: expected uint256"))
  uint256_output method outputs = err (
      Error.message
        ("unpack " <> method <> " output: expected 1 value, got " <> decimal_ℕ (length outputs)))

  unfoldable pub balance_of : VaultClient → Address → Result ℤ
  balance_of client owner = do
    out ← call client "balanceOf" (AbiValue.address owner ∷ [])
    uint256_output "balanceOf" out

  unfoldable pub preview_redeem : VaultClient → ℤ → Result ℤ
  preview_redeem client shares = do
    out ← call client "previewRedeem" (AbiValue.big_int shares ∷ [])
    uint256_output "previewRedeem" out

  unfoldable pub pack_redeem : ℤ → Address → Address → Result (List ℕ)
  pack_redeem shares receiver owner =
      codec.vault_abi.pack "redeem"
        (AbiValue.big_int shares ∷ AbiValue.address receiver ∷ AbiValue.address owner ∷ [])
