-- ===== src/Vault/Reader.antt =====
-- internal/morpho/factory.go: the `vaultReader`, which reads the state of the vault's contract for
-- the monitor modules.
use withdraw_bot.Prelude.{
  ℕ, zero, suc, ℤ, pos, negsuc, ◌+◌, ◌^◌, String, Bool, List, [], ◌∷◌, ◌<>◌, ◌*ℤ◌, div_ℤ, to_int64,
  is_positive, decimal, decimal_ℕ, if◌then◌else◌,
}
use withdraw_bot.Errors.{Error, Result, ok, err, ◌>>=◌}
use withdraw_bot.Core.{Address}
use withdraw_bot.Ethereum.{MultiClient, call_contract}
use withdraw_bot.Vault.Client.{AbiValue, Codec, view_call}

-- `VaultStateSnapshot` of internal/monitor/modules/morpho/vault_state.go. A map is the list of its
-- entries by ascending keys; an empty list stands for a nil and for an empty collection.
pub record VaultStateSnapshot : Type 0 where
  pub owner : String
  pub curator : String
  pub receive_shares_gate : String
  pub send_shares_gate : String
  pub receive_assets_gate : String
  pub send_assets_gate : String
  pub adapter_registry : String
  pub liquidity_adapter : String
  pub liquidity_data_hex : String
  pub performance_fee : String
  pub performance_fee_recipient : String
  pub management_fee : String
  pub management_fee_recipient : String
  pub max_rate : String
  pub adapters : List String
  pub allocator_roles : List (String × Bool)
  pub sentinel_roles : List (String × Bool)
  pub timelocks : List (String × String)
  pub abdicated : List (String × Bool)
  pub force_deallocate_penalties : List (String × String)

pub record VaultReader : Type 0 where
  pub ethereum : MultiClient
  pub vault : Address
  pub asset_decimals : ℕ

abbrev invalid {ℓ} : {A : Type ℓ} → String → String → Result A
invalid method expected = err (Error.message ("call " <> method <> ": expected " <> expected))

unfoldable pub parse_uint256_output : String → List AbiValue → Result ℤ
parse_uint256_output method (AbiValue.big_int value ∷ []) = ok value
parse_uint256_output method (value ∷ []) = invalid method "uint256"
parse_uint256_output method outputs = invalid method "one uint256"

address_output : String → List AbiValue → Result Address
address_output method (AbiValue.address value ∷ []) = ok value
address_output method (value ∷ []) = invalid method "address"
address_output method outputs = invalid method "one address"

bytes_output : String → List AbiValue → Result (List ℕ)
bytes_output method (AbiValue.bytes value ∷ []) = ok value
bytes_output method (value ∷ []) = invalid method "bytes"
bytes_output method outputs = invalid method "one bytes value"

-- `fmt.Sprint` of a byte slice: `[1 2 3]`.
byte_list : List ℕ → String
byte_list [] = "[]"
byte_list (b ∷ rest) = "[" <> decimal_ℕ b <> tail rest
  where
    tail : List ℕ → String
    tail [] = "]"
    tail (c ∷ more) = " " <> decimal_ℕ c <> tail more

module _ (codec : Codec) where
  -- The text of the one output, by its type.
  value_output : String → List AbiValue → Result String
  value_output method (AbiValue.big_int value ∷ []) = ok (decimal value)
  value_output method (AbiValue.uint64 value ∷ []) = ok (decimal_ℕ value)
  value_output method (AbiValue.address value ∷ []) = ok (codec.address_hex value)
  value_output method (AbiValue.bytes value ∷ []) = ok (byte_list value)
  value_output method (AbiValue.other text ∷ []) = ok text
  value_output method outputs = invalid method "one value"

  unfoldable pub vault_call : VaultReader → String → List AbiValue → Result (List AbiValue)
  vault_call reader method args = do
    packed ← codec.vault_abi.pack method args
    raw ← call_contract reader.ethereum (view_call reader.vault packed)
    codec.vault_abi.unpack method raw

  unfoldable vault_uint256 : VaultReader → String → Result ℤ
  vault_uint256 reader method = do
    out ← vault_call reader method []
    parse_uint256_output method out

  unfoldable pub vault_address : VaultReader → String → List AbiValue → Result Address
  unfolding address_output
  vault_address reader method args = do
    out ← vault_call reader method args
    address_output method out

  unfoldable vault_bytes : VaultReader → String → Result (List ℕ)
  unfolding bytes_output
  vault_bytes reader method = do out ← vault_call reader method []; bytes_output method out

  unfoldable vault_address_string : VaultReader → String → Result String
  vault_address_string reader method = do
    value ← vault_address reader method []
    ok (codec.address_hex value)

  unfoldable vault_value_string : VaultReader → String → Result String
  unfolding value_output byte_list
  vault_value_string reader method = do out ← vault_call reader method []; value_output method out

  -- The adapters with the indices from `index` on, `rounds` of them.
  unfoldable adapters_from : VaultReader → ℕ → ℕ → Result (List String)
  adapters_from reader zero index = ok []
  adapters_from reader (suc rounds) index = do
    value ← vault_address reader "adapters" (AbiValue.big_int (pos index) ∷ [])
    rest ← adapters_from reader rounds (index + 1)
    ok (codec.address_hex value ∷ rest)

  -- A length of which the low 64 bits are negative makes Go's `make` panic.
  unfoldable vault_adapters : VaultReader → Result (List String)
  vault_adapters reader = do
    count ← vault_uint256 reader "adaptersLength"
    elim (to_int64 count) [
      | pos rounds ↦ adapters_from reader rounds 0
      | negsuc _ ↦ err (Error.message "runtime error: makeslice: cap out of range")
    ]

  unfoldable current_share_price : VaultReader → Result ℤ
  current_share_price reader = do
    total_assets ← vault_uint256 reader "totalAssets"
    total_supply ← vault_uint256 reader "totalSupply"
    if is_positive total_supply
        then ok (div_ℤ (total_assets *ℤ pos (10 ^ reader.asset_decimals)) total_supply)
        else invalid "totalSupply" "positive total supply"

  unfoldable pub idle_assets : VaultReader → Address → Result ℤ
  idle_assets reader vault = do
    asset ← vault_address reader "asset" []
    packed ← codec.erc20_abi.pack "balanceOf" (AbiValue.address vault ∷ [])
    raw ← call_contract reader.ethereum (view_call asset packed)
    out ← codec.erc20_abi.unpack "balanceOf" raw
    parse_uint256_output "balanceOf" out

  unfoldable current_vault_state : VaultReader → Result VaultStateSnapshot
  current_vault_state reader = do
    owner ← vault_address_string reader "owner"
    curator ← vault_address_string reader "curator"
    receive_shares_gate ← vault_address_string reader "receiveSharesGate"
    send_shares_gate ← vault_address_string reader "sendSharesGate"
    receive_assets_gate ← vault_address_string reader "receiveAssetsGate"
    send_assets_gate ← vault_address_string reader "sendAssetsGate"
    adapter_registry ← vault_address_string reader "adapterRegistry"
    liquidity_adapter ← vault_address_string reader "liquidityAdapter"
    liquidity_data ← vault_bytes reader "liquidityData"
    performance_fee ← vault_value_string reader "performanceFee"
    performance_fee_recipient ← vault_address_string reader "performanceFeeRecipient"
    management_fee ← vault_value_string reader "managementFee"
    management_fee_recipient ← vault_address_string reader "managementFeeRecipient"
    max_rate ← vault_value_string reader "maxRate"
    adapters ← vault_adapters reader
    ok (record {
      owner = owner;
      curator = curator;
      receive_shares_gate = receive_shares_gate;
      send_shares_gate = send_shares_gate;
      receive_assets_gate = receive_assets_gate;
      send_assets_gate = send_assets_gate;
      adapter_registry = adapter_registry;
      liquidity_adapter = liquidity_adapter;
      liquidity_data_hex = codec.bytes_hex liquidity_data;
      performance_fee = performance_fee;
      performance_fee_recipient = performance_fee_recipient;
      management_fee = management_fee;
      management_fee_recipient = management_fee_recipient;
      max_rate = max_rate;
      adapters = adapters;
      allocator_roles = [];
      sentinel_roles = [];
      timelocks = [];
      abdicated = [];
      force_deallocate_penalties = [];
    })
