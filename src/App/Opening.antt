-- ===== src/App/Opening.antt =====
-- internal/app/runtime.go: what a runtime that was built holds.
use withdraw_bot.Prelude.{String, false, List, ◌≡◌, ◌==◌, refl, arith}
use withdraw_bot.Errors.{Result, ok, err}
use withdraw_bot.Core.{Address}
use withdraw_bot.Ethereum.{MultiClient}
use withdraw_bot.Withdraw.Types.{Signer}
use withdraw_bot.Config.Settings.{Config, Secrets}
use withdraw_bot.Adapter.{MorphoAdapter}
use withdraw_bot.Overrides.Apply.{MonitorModule}
use withdraw_bot.Factory.{build_modules}
use withdraw_bot.App.Runtime.{
  Held, Dependencies, Runtime, open_client, close_client, with_modules, with_owner, with_signer,
  with_client, with_addresses, with_secrets, with_config, adapter_of, setup_of, parse_address,
  build_runtime,
}

-- What a step that opens something leaves: after a success all of it and a result of which `P` holds,
-- after an error nothing of it.
abbrev pub Leaves {ℓ} : {A : Type ℓ} → (A → Type 0) → Held → Held → Held × Result A → Type 0
Leaves P opened before (held, ok a) = (held ≡ opened) × P a
Leaves P opened before (held, err _) = held ≡ before

pub close_client-open_client : (held : Held) → close_client (open_client held) ≡ held
close_client-open_client held = ground arith

module _ (deps : Dependencies) where
  -- The address of its signer is known, and its receiver is the one of its configuration, not 0.
  abbrev pub IsSound : Runtime → Type 0
  IsSound runtime =
      ((owner : Address) × (runtime.signer.address ≡ ok owner))
      × (runtime.receiver ≡ deps.hex_to_address runtime.config.ethereum.receiver_address)
      × (runtime.receiver == 0 ≡ false)

  -- What the parser of addresses accepts.
  abbrev IsAddress : String → Address → Type 0
  IsAddress text address = (address ≡ deps.hex_to_address text) × (address == 0 ≡ false)

  parse_address-IsAddress :
      (name text : String) {address : Address}
      → parse_address deps name text ≡ ok address
      → IsAddress text address
  unfolding parse_address
  parse_address-IsAddress name text h = ground arith

  module _ (held : Held) where
    with_modules-Leaves :
        (cfg : Config) (secrets : Secrets) (client : MultiClient) (signer : Signer)
        (adapter : MorphoAdapter) (modules : Result (List MonitorModule)) {owner : Address}
        → signer.address ≡ ok owner
        → IsAddress cfg.ethereum.receiver_address adapter.receiver
        → Leaves IsSound
            (open_client held)
            held
            (with_modules deps cfg secrets client signer adapter (open_client held) modules)
    with_modules-Leaves cfg secrets client signer adapter (ok modules) {owner} known (same, set) =
        (refl, ((owner, known), same, set))
    with_modules-Leaves cfg secrets client signer adapter (err e) known is =
        close_client-open_client held

    with_owner-Leaves :
        (cfg : Config) (secrets : Secrets) (client : MultiClient) (signer : Signer)
        (vault receiver : Address) (answer : Result Address)
        → signer.address ≡ answer
        → IsAddress cfg.ethereum.receiver_address receiver
        → Leaves IsSound
            (open_client held)
            held
            (with_owner deps cfg secrets client signer vault receiver (open_client held) answer)
    with_owner-Leaves cfg secrets client signer vault receiver (ok owner) known is =
        let adapter = adapter_of deps cfg client vault owner receiver in
        with_modules-Leaves cfg secrets client signer adapter
          (build_modules (setup_of deps cfg client adapter)) known is
    with_owner-Leaves cfg secrets client signer vault receiver (err e) known is =
        close_client-open_client held

    with_signer-Leaves :
        (cfg : Config) (secrets : Secrets) (client : MultiClient) (vault receiver : Address)
        (signer : Result Signer)
        → IsAddress cfg.ethereum.receiver_address receiver
        → Leaves IsSound
            (open_client held)
            held
            (with_signer deps cfg secrets client vault receiver (open_client held) signer)
    with_signer-Leaves cfg secrets client vault receiver (ok signer) is =
        with_owner-Leaves cfg secrets client signer vault receiver signer.address refl is
    with_signer-Leaves cfg secrets client vault receiver (err e) is = close_client-open_client held

    with_client-Leaves :
        (cfg : Config) (secrets : Secrets) (vault receiver : Address) (client : Result MultiClient)
        → IsAddress cfg.ethereum.receiver_address receiver
        → Leaves IsSound
            (open_client held)
            held
            (with_client deps cfg secrets vault receiver held client)
    with_client-Leaves cfg secrets vault receiver (ok client) is =
        with_signer-Leaves cfg secrets client vault receiver (deps.new_signer secrets.private_key)
          is
    with_client-Leaves cfg secrets vault receiver (err e) is = refl

    with_addresses-Leaves :
        (cfg : Config) (secrets : Secrets) (vault receiver : Result Address)
        → ((address : Address)
            → receiver ≡ ok address
            → IsAddress cfg.ethereum.receiver_address address)
        → Leaves IsSound
            (open_client held)
            held
            (with_addresses deps cfg secrets held vault receiver)
    with_addresses-Leaves cfg secrets (ok vault) (ok receiver) is =
        with_client-Leaves cfg secrets vault receiver
          (deps.dial_ethereum secrets.primary_rpc_url secrets.fallback_rpc_urls) (is receiver refl)
    with_addresses-Leaves cfg secrets (ok vault) (err e) is = refl
    with_addresses-Leaves cfg secrets (err e) receiver is = refl

    with_secrets-Leaves :
        (cfg : Config) (secrets : Result Secrets)
        → Leaves IsSound (open_client held) held (with_secrets deps cfg held secrets)
    with_secrets-Leaves cfg (ok secrets) =
        with_addresses-Leaves cfg secrets
          (parse_address deps "ethereum.vault_address" cfg.ethereum.vault_address)
          (parse_address deps "ethereum.receiver_address" cfg.ethereum.receiver_address)
          (λ address.
            parse_address-IsAddress "ethereum.receiver_address" cfg.ethereum.receiver_address)
    with_secrets-Leaves cfg (err e) = refl

    with_config-Leaves :
        (cfg : Result Config) → Leaves IsSound (open_client held) held (with_config deps held cfg)
    with_config-Leaves (ok cfg) = with_secrets-Leaves cfg deps.load_secrets
    with_config-Leaves (err e) = refl

    pub build_runtime-Leaves :
        (config_path : String)
        → Leaves IsSound (open_client held) held (build_runtime deps config_path held)
    unfolding build_runtime
    build_runtime-Leaves config_path = with_config-Leaves (deps.load_config config_path)
