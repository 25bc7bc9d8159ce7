-- ===== src/App/Checking.antt =====
-- internal/app/app.go: what the configuration check decides.
use withdraw_bot.App.Mode.{Mode}
use withdraw_bot.App.Runtime.{Runtime}
