-- ===== src/Tests/Runtime.antt =====
-- internal/app and internal/reports: runs, checks, a wrong command and a report, in the small world.
use mathlib.Core.List.{Permᴰ, Pairwise-pair}
use withdraw_bot.Prelude.{
  String, pos, true, none, some, List, [], ◌∷◌, ◌≡◌, refl, sort_keys, Differ, ℕ, ◌++◌, ◌≤◌, ◌<>◌,
  ◌⊎◌, All, sym, ap, subst,
}
use withdraw_bot.Errors.{Error, ok, ok_inj}
use withdraw_bot.Core.{
  MonitorStatus, MonitorResult, module_share_price_loss, module_vault_state,
  module_withdraw_liquidity, worst_known_status, worst_from,
}
use withdraw_bot.Ethereum.{chain_id}
use withdraw_bot.Overrides.Change.{no_snapshot}
use withdraw_bot.Factory.{
  build_modules, validate_module_configs, build_share_price, build_liquidity, build_vault_state,
  build_share_price_module,
}
use withdraw_bot.Factory.Slots.{IsKnown, IsSlot, build_modules-IsSlot}
use withdraw_bot.Overrides.Apply.{MonitorModule}
use withdraw_bot.Config.{parse_gwei}
use withdraw_bot.Config.Values.{
  enabled_module_config, module_enabled, module_big_int, module_int64, module_string, parse_integer,
}
use withdraw_bot.Ethereum.{SignedTx}
use withdraw_bot.Gas.Bump.{amount}
use withdraw_bot.Withdraw.Types.{Service}
use withdraw_bot.Withdraw.Execute.{execute_full_exit}
use withdraw_bot.Withdraw.Sequences.{SignsGiven}
use withdraw_bot.App.Budget.{built_services_spend}
use withdraw_bot.App.Released.{max_fee_of, max_tip_of}
use withdraw_bot.Tests.Position.{some-inj}
use withdraw_bot.Config.Settings.{Secrets}
use withdraw_bot.Telegram.Commands.{check, parse_command}
use withdraw_bot.Telegram.Types.{Update, PollRound, LoopEnd, next_offset}
use withdraw_bot.Telegram.Service.{poll}
use withdraw_bot.Reports.{render_stats}
use withdraw_bot.Reports.Determinism.{render_stats-Perm}
use withdraw_bot.App.Mode.{Mode}
use withdraw_bot.App.Runtime.{Held, Dependencies, Runtime}
use withdraw_bot.App.Services.{
  World, ServiceDependencies, withdraw_service_of, telegram_service_of, build_monitor_services,
}
use withdraw_bot.App.Run.{LoopDependencies, run}
use withdraw_bot.App.Released.{run_released}
use withdraw_bot.App.Mistakes.{not_found, service, poll-mistake}
use withdraw_bot.Tests.World.{
  codec, nodes_client, owner_signer, attempts, service_at, urgent, idle_state,
}
use withdraw_bot.Tests.Configuration.{full, minute}
use withdraw_bot.Tests.Database.{provider, readers, setup}

abbrev secrets : Secrets
secrets = record {
  private_key = "k";
  telegram_token = "t";
  primary_rpc_url = "u";
  fallback_rpc_urls = [];
}

abbrev dependencies : Dependencies
dependencies = record {
  load_config = λ path. ok full;
  load_secrets = ok secrets;
  dial_ethereum = λ primary fallbacks. ok nodes_client;
  new_signer = λ key. ok owner_signer;
  is_hex_address = λ text. true;
  hex_to_address = λ text. 17;
  readers = λ client vault decimals. record {
    share_price = ok (some (pos 1));
    idle_assets = λ v. ok (some (pos 1));
    vault_state = ok no_snapshot;
    now = pos 1000;
  };
  decode_snapshot = λ value. ok no_snapshot;
  codec = codec;
  now = pos 1000;
  error_text = λ e. "error";
}

-- The bot of Telegram refuses the token.
abbrev services : ServiceDependencies
services = record {
  make_dir = λ path. none;
  dir_of = λ path. path;
  join_path = λ dir name. dir <> name;
  open_storage = λ path. none;
  new_telegram_bot = λ token. some (Error.message "unauthorized");
  parse_duration = minute;
  repository = attempts;
  environment = provider (pos 5);
  send = λ chat_id text w. (w, none);
}

abbrev loops : LoopDependencies
loops = record {
  services = services;
  first_end = λ running interval. none;
  write_yaml = λ fragments. none;
}

abbrev nothing : Held
nothing = record { clients = 0; logs = 0; databases = 0 }

run_released_example : (run dependencies loops Mode.monitor "config.yaml" nothing).0 ≡ nothing
run_released_example = run_released dependencies loops Mode.monitor "config.yaml" nothing

abbrev running : Runtime
running = record {
  config = full;
  secrets = secrets;
  client = nodes_client;
  signer = owner_signer;
  receiver = 17;
  modules = [];
  adapter = record {
    ethereum = nodes_client;
    vault_client = record { ethereum = nodes_client; vault = 17 };
    vault = 17;
    owner = 21;
    receiver = 17;
    asset_symbol = "USDC";
    asset_decimals = 6;
    now = pos 1000;
  };
}

abbrev world : World
world = record {
  database = record { confirmations = []; overrides = []; events = [] };
  monitor = record { latest = []; inserted = []; handled = [] };
}

abbrev mistyped : Update
mistyped = record {
  update_id = pos 3;
  message = some (record { chat_id = some (pos 7); from_id = some (pos 42); text = "/confirm 1" });
}

poll-mistake_example :
    poll dependencies.error_text
      (service dependencies services running
        (service_at (pos 1000))
        (Error.message "constraint failed")
        refl)
      "t"
      (PollRound.get_updates (λ offset. ok (mistyped ∷ [])) ∷ [])
      (pos 0)
      world
    ≡ (next_offset (pos 0) mistyped, (world, LoopEnd.failed (not_found "1")))
unfolding check parse_command
poll-mistake_example =
    poll-mistake dependencies services running (service_at (pos 1000))
      (Error.message "constraint failed") refl "t" (λ offset. ok (mistyped ∷ [])) [] (pos 0) world
      mistyped []
      (record {
        id = "1";
        user_id = pos 42;
        text = "/confirm 1";
        asked = refl;
        is_text = refl;
        parsed = refl;
        is_allowed = refl;
        missing = refl;
      })
      refl

abbrev result_of : String → MonitorStatus → String × MonitorResult
result_of id status = (
  id,
  record { module_id = id; status = status; observed_at = pos 0; metrics = []; findings = [] },
)

abbrev first : String × MonitorResult
first = result_of module_share_price_loss MonitorStatus.ok

abbrev second : String × MonitorResult
second = result_of module_vault_state MonitorStatus.urgent

render_stats-Perm_example : render_stats (first ∷ second ∷ []) ≡ render_stats (second ∷ first ∷ [])
render_stats-Perm_example =
    render_stats-Perm {l = first ∷ second ∷ []} {r = second ∷ first ∷ []}
      ((Pairwise-pair {R = Differ} (λ a b. hlevel)).1 refl) ∣ Permᴰ.swap refl refl ∣₁

both_reported :
    render_stats (second ∷ first ∷ [])
    ≡ "Status: URGENT\n\nshare_price_loss: OK\n\nvault_state_baseline: URGENT"
unfolding render_stats sort_keys worst_known_status worst_from
both_reported = refl

abbrev price_module : MonitorModule
price_module = MonitorModule.share_price (record {
  baseline_share_price = some (pos 1000000);
  previous_share_price = none;
  warn_bps = pos 100;
  urgent_bps = pos 500;
  reader = some (ok (some (pos 1000000)));
  now = readers.now;
})

build_modules-IsSlot_example :
    All IsKnown setup.modules
    × ((prices : List MonitorModule) × (liquidity : List MonitorModule) × (state : List
          MonitorModule)
        × IsSlot setup module_share_price_loss (build_share_price setup) prices
        × IsSlot setup module_withdraw_liquidity (build_liquidity setup) liquidity
        × IsSlot setup module_vault_state (build_vault_state setup) state
        × ((price_module ∷ []) ≡ prices ++ (liquidity ++ state)))
unfolding build_modules validate_module_configs enabled_module_config module_enabled
    build_share_price_module module_big_int module_int64 module_string parse_integer
build_modules-IsSlot_example = build_modules-IsSlot setup {modules = price_module ∷ []} refl

-- The services with a bot that Telegram accepts.
abbrev accepted : LoopDependencies
accepted = record loops { services = record services { new_telegram_bot = λ token. none } }

abbrev exit_service : Service
exit_service =
    withdraw_service_of dependencies accepted.services running (pos 60000000000) 0 2500000000

exit_signs : SignsGiven exit_service
exit_signs signer tx chain_id signed e h =
    let given : owner_signer.sign_transaction tx chain_id ≡ ok signed =
      subst (λ s. s.sign_transaction tx chain_id ≡ ok signed) (sym (some-inj e)) h in
    ap (λ (t : SignedTx). t.tx) (sym (ok_inj given))

built_services_spend_example :
    let s' = (execute_full_exit exit_service urgent idle_state).2 in
    (max_fee : ℕ) × (max_tip : ℕ) × (max_fee_of full ≡ ok max_fee)
    × (max_tip_of full ≡ ok max_tip)
    × ((s'.handed ≡ [])
        ⊎ ((signed : SignedTx) × (s'.handed ≡ signed ∷ [])
            × (amount signed.tx.gas_fee_cap ≤ max_fee)
            × (amount signed.tx.gas_tip_cap ≤ max_tip)))
unfolding build_monitor_services parse_gwei
built_services_spend_example =
    built_services_spend dependencies accepted running nothing urgent idle_state
      {after = record { clients = 0; logs = 0; databases = 1 }}
      {built = record {
        withdraw = exit_service;
        telegram = telegram_service_of dependencies accepted.services running exit_service;
      }}
      refl exit_signs
