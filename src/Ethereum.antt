-- ===== src/Ethereum.antt =====
-- internal/ethereum/client.go: the RPC client that falls back from one node to the next.
-- A node is given by its answers at the time of one call.
pub mod Failover
pub mod Dial
use withdraw_bot.Prelude.{ℕ, ℤ, String, Option, none, some, List, [], ◌∷◌, ◌++◌, map, ◌<>◌}
use withdraw_bot.Errors.{Error, Result, ok, err, ◌>>=◌, map_err}
use withdraw_bot.Core.{Address, Hash}

-- `types.DynamicFeeTx` of go-ethereum, the fields that the bot sets.
pub record DynamicFeeTx : Type 0 where
  pub chain_id : ℤ
  pub nonce : ℕ
  pub gas_tip_cap : Option ℤ
  pub gas_fee_cap : Option ℤ
  pub gas : ℕ
  pub to : Address
  pub value : Option ℤ
  pub payload : List ℕ

-- A signed transaction of go-ethereum.
pub record SignedTx : Type 0 where
  pub tx : DynamicFeeTx
  pub hash : Hash

-- `ethereum.CallMsg`, the fields that the bot sets; `sender` is its `From`.
pub record CallMsg : Type 0 where
  pub sender : Address
  pub to : Address
  pub value : Option ℤ
  pub payload : List ℕ

-- A receipt, which the bot only passes on.
pub record Receipt : Type 0 where
  pub tx_hash : Hash
  pub status : ℕ

pub record RpcClient : Type 0 where
  pub call_contract : CallMsg → Result (List ℕ)
  pub pending_nonce_at : Address → Result ℕ
  pub suggest_gas_price : Result (Option ℤ)
  pub suggest_gas_tip_cap : Result (Option ℤ)
  pub estimate_gas : CallMsg → Result ℕ
  pub send_transaction : SignedTx → Option Error
  pub transaction_receipt : Hash → Result Receipt
  pub chain_id : Result (Option ℤ)

pub record MultiClient : Type 0 where
  pub primary : Option RpcClient
  pub fallbacks : List (Option RpcClient)

unfoldable pub new_multi_client : RpcClient → List RpcClient → MultiClient
new_multi_client primary fallbacks = record {
  primary = some primary;
  fallbacks = map some fallbacks;
}

-- The clients of a list that are not nil, in order.
unfoldable pub present : List (Option RpcClient) → List RpcClient
present [] = []
present (none ∷ rest) = present rest
present (some client ∷ rest) = client ∷ present rest

unfoldable pub rpc_clients : MultiClient → Result (List RpcClient)
rpc_clients client = elim client.primary [
  | none ↦ err (Error.message "ethereum RPC primary client is nil")
  | some primary ↦ ok (primary ∷ present client.fallbacks)
]

module _ {A : Type 0} (ask : RpcClient → Result A) where
  -- The loop that each read repeats: the first answer that is no error, else the last error.
  unfoldable pub first_answer : List RpcClient → Error → Result A
  first_answer [] last = err last
  first_answer (client ∷ rest) last = elim (ask client) [
    | ok answer ↦ ok answer
    | err e ↦ first_answer rest e
  ]

  -- `what` opens the error's text. With a primary client the loop has an error to report.
  unfoldable pub read : String → MultiClient → Result A
  read what client = do
    clients ← map_err (Error.wrapped what) (rpc_clients client)
    map_err (Error.wrapped (what <> " failed on all RPC clients"))
        (first_answer clients (Error.message "%!w(<nil>)"))

unfoldable pub call_contract : MultiClient → CallMsg → Result (List ℕ)
call_contract client call = read (λ rpc. rpc.call_contract call) "call contract" client

unfoldable pub pending_nonce_at : MultiClient → Address → Result ℕ
pending_nonce_at client account = read (λ rpc. rpc.pending_nonce_at account) "pending nonce" client

unfoldable pub suggest_gas_tip_cap : MultiClient → Result (Option ℤ)
suggest_gas_tip_cap client = read (λ rpc. rpc.suggest_gas_tip_cap) "suggest gas tip cap" client

unfoldable pub suggest_gas_price : MultiClient → Result (Option ℤ)
suggest_gas_price client = read (λ rpc. rpc.suggest_gas_price) "suggest gas price" client

unfoldable pub estimate_gas : MultiClient → CallMsg → Result ℕ
estimate_gas client call = read (λ rpc. rpc.estimate_gas call) "estimate gas" client

unfoldable pub transaction_receipt : MultiClient → Hash → Result Receipt
transaction_receipt client tx_hash =
    read (λ rpc. rpc.transaction_receipt tx_hash) "transaction receipt" client

unfoldable pub chain_id : MultiClient → Result (Option ℤ)
chain_id client = read (λ rpc. rpc.chain_id) "chain ID" client

-- A transaction goes to the primary node alone.
unfoldable pub send_transaction : MultiClient → Option SignedTx → Option Error
send_transaction client tx = elim client.primary [
  | none ↦ some (Error.message "send transaction: ethereum RPC primary client is nil")
  | some primary ↦ elim tx [
    | none ↦ some (Error.message "send transaction: transaction is nil")
    | some signed ↦ elim (primary.send_transaction signed) [
      | none ↦ none
      | some e ↦ some (Error.wrapped "send transaction" e)
    ]
  ]
]

-- The clients that `Close` closes, in order.
unfoldable pub close : MultiClient → List RpcClient
close client = elim client.primary [
  | none ↦ present client.fallbacks
  | some primary ↦ primary ∷ present client.fallbacks
]

-- The loop of `dialMulti` over the fallback URLs. Beside its result stand the clients that are
-- closed again: after an error, the primary one and the fallbacks that were dialled.
unfoldable pub dial_fallbacks :
    (String → Result RpcClient)
    → RpcClient
    → List String
    → List RpcClient
    → Result MultiClient × List RpcClient
dial_fallbacks dial primary [] fallbacks = (ok (new_multi_client primary fallbacks), [])
dial_fallbacks dial primary (url ∷ rest) fallbacks = elim (dial url) [
  | ok client ↦ dial_fallbacks dial primary rest (fallbacks ++ (client ∷ []))
  | err e ↦ (err (Error.wrapped "dial fallback RPC" e), primary ∷ fallbacks)
]

unfoldable pub dial_multi :
    (String → Result RpcClient) → String → List String → Result MultiClient × List RpcClient
dial_multi dial primary_url fallback_urls = elim (dial primary_url) [
  | ok primary ↦ dial_fallbacks dial primary fallback_urls []
  | err e ↦ (err (Error.wrapped "dial primary RPC" e), [])
]
