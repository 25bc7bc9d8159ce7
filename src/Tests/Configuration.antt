-- ===== src/Tests/Configuration.antt =====
-- internal/config/config.go at concrete configurations.
use withdraw_bot.Prelude.{ℤ, pos, negsuc, String, none, some, [], ◌∷◌, ◌≡◌, refl, arith}
use withdraw_bot.Errors.{Error, Result, ok}
use withdraw_bot.Config.{parse_gwei}
use withdraw_bot.Config.Settings.{Config, validate}
use withdraw_bot.Config.Validation.{validate-IsAccepted}

abbrev pub minute : String → Result ℤ
minute text = ok (pos 60000000000)

abbrev pub full : Config
full = record {
  app = record { monitor_interval = "1m"; data_dir = "data" };
  ethereum = record {
    chain_id = pos 1;
    vault_address = "0x01";
    asset_symbol = "USDC";
    asset_decimals = 6;
    receiver_address = "";
  };
  telegram = record { chat_id = pos 7; allowed_user_ids = pos 42 ∷ []; daily_report_utc_time = "" };
  gas = record {
    replacement_timeout = "1m";
    gas_limit_buffer_bps = pos 2000;
    fee_bump_bps = pos 1250;
    max_fee_per_gas_gwei = "0";
    max_priority_fee_per_gas_gwei = "2.5";
  };
  logs = record { file_path = ""; max_size_mb = pos 0; max_backups = pos 0; max_age_days = pos 0 };
  modules = [];
}

validate-IsAccepted_example : validate minute full ≡ none
unfolding parse_gwei
validate-IsAccepted_example = (validate-IsAccepted minute full).1 (
  refl,
  (
    (pos 60000000000, refl, omega arith),
    (
      refl,
      (
        omega arith,
        (
          refl,
          (
            refl,
            (
              refl,
              (
                refl,
                (
                  refl,
                  (
                    (pos 60000000000, refl, omega arith),
                    (
                      (omega arith, omega arith),
                      ((omega arith, omega arith), ((0, refl), (2500000000, refl))),
                    ),
                  ),
                ),
              ),
            ),
          ),
        ),
      ),
    ),
  ),
)

without_chain :
    validate minute (record full { ethereum = record (full.ethereum) { chain_id = negsuc 0 } })
    ≡ some (Error.message "ethereum.chain_id must be positive")
unfolding validate
without_chain = refl
