-- ===== src/Tests/Nodes.antt =====
-- internal/ethereum/client.go: reads, transactions and dials in the small world.
use withdraw_bot.Prelude.{
  String, none, some, [], ◌∷◌, ◌≡◌, ◌↔◌, refl, str_eq, if◌then◌else◌, ℤ, pos, Option,
}
use withdraw_bot.Errors.{Error, Result, ok, err}
use withdraw_bot.Ethereum.{RpcClient, MultiClient, SignedTx, present, read, dial_multi}
use withdraw_bot.Ethereum.Failover.{FirstAnswer, read-FirstAnswer}
use withdraw_bot.Ethereum.Dial.{Accounts, opened_from, dial_multi-Accounts}
use withdraw_bot.Tests.World.{node, dead_node, nodes_client}

abbrev ask : RpcClient → Result (Option ℤ)
ask client = client.suggest_gas_price

abbrev dead_client : MultiClient
dead_client = record { primary = some dead_node; fallbacks = none ∷ some dead_node ∷ [] }

abbrev live_client : MultiClient
live_client = record { primary = some node; fallbacks = [] }

read-FirstAnswer_example :
    (read ask "suggest gas price" nodes_client ≡ ok (some (pos 100)))
    ↔ FirstAnswer ask (dead_node ∷ node ∷ []) (some (pos 100))
unfolding present
read-FirstAnswer_example =
    read-FirstAnswer ask "suggest gas price" nodes_client dead_node refl (some (pos 100))

abbrev transfer : SignedTx
transfer = record {
  tx = record {
    chain_id = pos 1;
    nonce = 5;
    gas_tip_cap = some (pos 10);
    gas_fee_cap = some (pos 110);
    gas = 60000;
    to = 17;
    value = some (pos 0);
    payload = [];
  };
  hash = 5;
}

-- A dial that fails at one URL.
abbrev dial : String → Result RpcClient
dial url = if str_eq url "bad" then err (Error.message "refused") else ok node

dial_multi-Accounts_example :
    Accounts dial
      (opened_from dial "a" ("b" ∷ "bad" ∷ "c" ∷ []))
      (dial_multi dial "a" ("b" ∷ "bad" ∷ "c" ∷ []))
dial_multi-Accounts_example = dial_multi-Accounts dial "a" ("b" ∷ "bad" ∷ "c" ∷ [])
