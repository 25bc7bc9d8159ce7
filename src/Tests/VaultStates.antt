-- ===== src/Tests/VaultStates.antt =====
-- internal/monitor/modules/morpho/vault_state.go: a vault of which the owner and an allocator
-- changed.
use withdraw_bot.Prelude.{String, some, List, [], ◌∷◌, ◌≡◌, refl, pos}
use withdraw_bot.Errors.{ok}
use withdraw_bot.Core.{Severity}
use withdraw_bot.Vault.Reader.{VaultStateSnapshot}
use withdraw_bot.Modules.VaultState.{
  StateDiff, Collection, VaultStateModule, collection_eq, diff_vault_state,
}

abbrev json : Collection → String
json (Collection.strings _) = "strings"
json (Collection.flags _) = "flags"
json (Collection.texts _) = "texts"

abbrev state_of : String → List String → VaultStateSnapshot
state_of owner adapters = record {
  owner = owner;
  curator = "0x02";
  receive_shares_gate = "0x00";
  send_shares_gate = "0x00";
  receive_assets_gate = "0x00";
  send_assets_gate = "0x00";
  adapter_registry = "0x03";
  liquidity_adapter = "0x04";
  liquidity_data_hex = "0x";
  performance_fee = "0";
  performance_fee_recipient = "0x00";
  management_fee = "0";
  management_fee_recipient = "0x00";
  max_rate = "0";
  adapters = adapters;
  allocator_roles = [];
  sentinel_roles = [];
  timelocks = [];
  abdicated = [];
  force_deallocate_penalties = [];
}

abbrev drifting : VaultStateModule
drifting = record {
  reader = some (ok (state_of "0x09" ("0x05" ∷ [])));
  baseline = state_of "0x01" [];
  change_severity = Severity.warn;
  now = pos 1000;
}

abbrev drift : List StateDiff
drift =
    record { field = "adapters"; expected = "strings"; actual = "strings" }
    ∷ record { field = "owner"; expected = "0x01"; actual = "0x09" }
    ∷ []

is_drift : diff_vault_state json (state_of "0x01" []) (state_of "0x09" ("0x05" ∷ [])) ≡ drift
unfolding diff_vault_state collection_eq
is_drift = refl
