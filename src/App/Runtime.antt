-- ===== src/App/Runtime.antt =====
-- internal/app/runtime.go: buildRuntime, which opens the client and builds the modules.
use withdraw_bot.Prelude.{
  ℕ, suc, ◌-◌, String, Bool, not, ◌||◌, some, List, [], ◌∷◌, str_eq, ◌==◌, ◌<>◌, replace_all,
  if◌then◌else◌,
}
use withdraw_bot.Errors.{Error, Result, ok, err}
use withdraw_bot.Core.{Address, Time}
use withdraw_bot.Ethereum.{MultiClient}
use withdraw_bot.Vault.Client.{Codec}
use withdraw_bot.Vault.Reader.{VaultStateSnapshot}
use withdraw_bot.Withdraw.Types.{Signer}
use withdraw_bot.Adapter.{MorphoAdapter, position, simulate_full_exit}
use withdraw_bot.Config.Values.{Value}
use withdraw_bot.Config.Settings.{Config, Secrets}
use withdraw_bot.Modules.Liquidity.{ExitSimulator}
use withdraw_bot.Overrides.Apply.{MonitorModule}
use withdraw_bot.Factory.{Readers, Setup, build_modules}

-- The resources that a run holds, by how many are open.
pub record Held : Type 0 where
  pub clients : ℕ
  pub logs : ℕ
  pub databases : ℕ

abbrev pub open_client : Held → Held
open_client held = record held { clients = suc held.clients }

abbrev pub close_client : Held → Held
close_client held = record held { clients = held.clients - 1 }

-- What the functions that `buildRuntime` calls answer. The readers are those of the vault over the
-- client.
pub record Dependencies : Type 0 where
  pub load_config : String → Result Config
  pub load_secrets : Result Secrets
  pub dial_ethereum : String → List String → Result MultiClient
  pub new_signer : String → Result Signer
  pub is_hex_address : String → Bool
  pub hex_to_address : String → Address
  pub readers : MultiClient → Address → ℕ → Readers
  pub decode_snapshot : Value → Result VaultStateSnapshot
  pub codec : Codec
  pub now : Time
  pub error_text : Error → String

pub record Runtime : Type 0 where
  pub config : Config
  pub secrets : Secrets
  pub client : MultiClient
  pub signer : Signer
  pub receiver : Address
  pub modules : List MonitorModule
  pub adapter : MorphoAdapter

abbrev pub redact_value : String → String → String
redact_value message secret =
    if str_eq secret "" then message else replace_all message secret "[REDACTED]"

abbrev pub redact_all : String → List String → String
redact_all message [] = message
redact_all message (secret ∷ secrets) = redact_all (redact_value message secret) secrets

unfoldable pub sanitize_runtime_error : (Error → String) → Secrets → Error → Error
sanitize_runtime_error error_text secrets e = Error.message (
    redact_all (error_text e) (
      secrets.private_key ∷ secrets.telegram_token ∷ secrets.primary_rpc_url
      ∷ secrets.fallback_rpc_urls))

module _ (deps : Dependencies) where
  unfoldable pub parse_address : String → String → Result Address
  parse_address name value =
      if not (deps.is_hex_address value) || (deps.hex_to_address value == 0)
      then err (Error.message (name <> " must be a valid Ethereum address"))
      else ok (deps.hex_to_address value)

  -- The adapter of the runtime, and what it simulates for the modules.
  abbrev pub adapter_of : Config → MultiClient → Address → Address → Address → MorphoAdapter
  adapter_of cfg client vault owner receiver = record {
    ethereum = client;
    vault_client = record { ethereum = client; vault = vault };
    vault = vault;
    owner = owner;
    receiver = receiver;
    asset_symbol = cfg.ethereum.asset_symbol;
    asset_decimals = cfg.ethereum.asset_decimals;
    now = deps.now;
  }

  abbrev pub exit_simulator_of : MorphoAdapter → ExitSimulator
  exit_simulator_of adapter = record {
    position = position deps.codec adapter;
    simulate_full_exit = simulate_full_exit deps.codec adapter;
  }

  abbrev pub setup_of : Config → MultiClient → MorphoAdapter → Setup
  setup_of cfg client adapter = record {
    modules = cfg.modules;
    asset_decimals = cfg.ethereum.asset_decimals;
    readers = deps.readers client adapter.vault cfg.ethereum.asset_decimals;
    exit_simulator = some (exit_simulator_of adapter);
    vault = adapter.vault;
    owner = adapter.owner;
    receiver = adapter.receiver;
    decode_snapshot = deps.decode_snapshot;
  }

  -- The steps after the dial; each closes the client where it fails.
  abbrev pub with_modules :
      Config
      → Secrets
      → MultiClient
      → Signer
      → MorphoAdapter
      → Held
      → Result (List MonitorModule)
      → Held × Result Runtime
  with_modules cfg secrets client signer adapter held (err e) = (close_client held, err e)
  with_modules cfg secrets client signer adapter held (ok modules) = (
    held,
    ok (record {
      config = cfg;
      secrets = secrets;
      client = client;
      signer = signer;
      receiver = adapter.receiver;
      modules = modules;
      adapter = adapter;
    }),
  )

  abbrev pub with_owner :
      Config
      → Secrets
      → MultiClient
      → Signer
      → Address
      → Address
      → Held
      → Result Address
      → Held × Result Runtime
  with_owner cfg secrets client signer vault receiver held (err e) = (close_client held, err e)
  with_owner cfg secrets client signer vault receiver held (ok owner) =
      let adapter = adapter_of cfg client vault owner receiver in
      with_modules cfg secrets client signer adapter held
        (build_modules (setup_of cfg client adapter))

  abbrev pub with_signer :
      Config
      → Secrets
      → MultiClient
      → Address
      → Address
      → Held
      → Result Signer
      → Held × Result Runtime
  with_signer cfg secrets client vault receiver held (err e) = (close_client held, err e)
  with_signer cfg secrets client vault receiver held (ok signer) =
      with_owner cfg secrets client signer vault receiver held signer.address

  abbrev pub with_client :
      Config → Secrets → Address → Address → Held → Result MultiClient → Held × Result Runtime
  with_client cfg secrets vault receiver held (err e) =
      (held, err (sanitize_runtime_error deps.error_text secrets e))
  with_client cfg secrets vault receiver held (ok client) =
      with_signer cfg secrets client vault receiver (open_client held)
        (deps.new_signer secrets.private_key)

  -- The steps before the dial, which open nothing.
  abbrev pub with_addresses :
      Config → Secrets → Held → Result Address → Result Address → Held × Result Runtime
  with_addresses cfg secrets held (err e) receiver = (held, err e)
  with_addresses cfg secrets held (ok vault) (err e) = (held, err e)
  with_addresses cfg secrets held (ok vault) (ok receiver) =
      with_client cfg secrets vault receiver held
        (deps.dial_ethereum secrets.primary_rpc_url secrets.fallback_rpc_urls)

  abbrev pub with_secrets : Config → Held → Result Secrets → Held × Result Runtime
  with_secrets cfg held (err e) = (held, err e)
  with_secrets cfg held (ok secrets) =
      with_addresses cfg secrets held
        (parse_address "ethereum.vault_address" cfg.ethereum.vault_address)
        (parse_address "ethereum.receiver_address" cfg.ethereum.receiver_address)

  abbrev pub with_config : Held → Result Config → Held × Result Runtime
  with_config held (err e) = (held, err e)
  with_config held (ok cfg) = with_secrets cfg held deps.load_secrets

  unfoldable pub build_runtime : String → Held → Held × Result Runtime
  unfolding sanitize_runtime_error parse_address build_modules position simulate_full_exit
  build_runtime config_path held = with_config held (deps.load_config config_path)
