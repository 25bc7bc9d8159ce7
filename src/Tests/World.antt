-- ===== src/Tests/World.antt =====
-- internal/withdraw, internal/ethereum and internal/morpho: nodes, a vault, an adapter, a signer
-- and a service, given by what they answer.
use withdraw_bot.Prelude.{pos, none, some, [], ◌∷◌, length}
use withdraw_bot.Errors.{Error, ok, err}
use withdraw_bot.Core.{Time}
use withdraw_bot.Ethereum.{RpcClient, MultiClient}
use withdraw_bot.Vault.Client.{AbiValue, Abi, Codec}
use withdraw_bot.Adapter.{MorphoAdapter, morpho_adapter}
use withdraw_bot.Gas.Bump.{capped_policy, caps}
use withdraw_bot.Withdraw.Types.{
  WithdrawalTrigger, trigger_kind_urgent, Signer, TransactionSubmitter, AttemptRepository,
  PendingWithdrawal, Service, State,
}

-- A node at which the account has 700 shares, the next nonce is 5, and the exit takes 50000 gas.
abbrev pub node : RpcClient
node = record {
  call_contract = λ call. ok (7 ∷ []);
  pending_nonce_at = λ account. ok 5;
  suggest_gas_price = ok (some (pos 100));
  suggest_gas_tip_cap = ok (some (pos 10));
  estimate_gas = λ call. ok 50000;
  send_transaction = λ tx. none;
  transaction_receipt = λ hash. err (Error.message "not found");
  chain_id = ok (some (pos 1));
}

-- A node that answers nothing.
abbrev pub dead_node : RpcClient
dead_node = record {
  call_contract = λ call. err (Error.message "down");
  pending_nonce_at = λ account. err (Error.message "down");
  suggest_gas_price = err (Error.message "down");
  suggest_gas_tip_cap = err (Error.message "down");
  estimate_gas = λ call. err (Error.message "down");
  send_transaction = λ tx. some (Error.message "down");
  transaction_receipt = λ hash. err (Error.message "down");
  chain_id = err (Error.message "down");
}

-- The first node is down, so that reads are answered by the second.
abbrev pub nodes_client : MultiClient
nodes_client = record { primary = some dead_node; fallbacks = none ∷ some node ∷ [] }

abbrev pub abi : Abi
abi = record {
  pack = λ method args. ok (length args ∷ []);
  unpack = λ method raw. ok (AbiValue.big_int (pos 700) ∷ []);
}

abbrev pub codec : Codec
codec = record {
  vault_abi = abi;
  erc20_abi = abi;
  address_hex = λ address. "0x";
  bytes_hex = λ bytes. "0x";
}

abbrev pub vault_adapter : MorphoAdapter
vault_adapter = record {
  ethereum = nodes_client;
  vault_client = record { ethereum = nodes_client; vault = 17 };
  vault = 17;
  owner = 21;
  receiver = 22;
  asset_symbol = "USDC";
  asset_decimals = 6;
  now = pos 1000;
}

-- The owner's key; the hash of a transaction is its nonce.
abbrev pub owner_signer : Signer
owner_signer = record {
  address = ok 21;
  sign_transaction = λ tx chain_id. ok (record { tx = tx; hash = tx.nonce });
}

abbrev pub network : TransactionSubmitter
network = record {
  pending_nonce_at = λ account. ok 5;
  suggest_gas_price = ok (some (pos 100));
  suggest_gas_tip_cap = ok (some (pos 10));
  send_transaction = λ tx. none;
}

abbrev pub attempts : AttemptRepository
attempts = record { insert_withdrawal_attempt = λ attempt. none }

-- Replacements may be sent 60 units of time after a submission.
abbrev pub service_at : Time → Service
service_at now = record {
  adapter = some (morpho_adapter codec vault_adapter);
  signer = some owner_signer;
  chain_id = some (pos 1);
  submitter = some network;
  repository = some attempts;
  gas_policy = capped_policy 1000 500 50;
  gas_limit_buffer_bps = pos 2000;
  replacement_timeout = pos 60;
  now = now;
  format_time = λ time. "t";
}

abbrev pub urgent : WithdrawalTrigger
urgent = record {
  kind = trigger_kind_urgent;
  module_id = "share_price_loss";
  finding_key = "share_price_loss";
}

abbrev pub pending_exit : PendingWithdrawal
pending_exit = record { nonce = 5; fee_caps = caps 110 10; submitted_at = pos 1000; tx_hash = 5 }

abbrev pub idle_state : State
idle_state = record { pending = none; handed = []; stored = [] }

abbrev pub pending_state : State
pending_state = record { pending = some pending_exit; handed = []; stored = [] }
