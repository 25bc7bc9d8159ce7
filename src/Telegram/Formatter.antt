-- ===== src/Telegram/Formatter.antt =====
-- internal/interactions/telegram/formatter.go: the escapes of MarkdownV2.
use withdraw_bot.Prelude.{String, List, [], ◌∷◌, replace_all, ◌<>◌}

abbrev pub markdown_v2_escapes : List String
markdown_v2_escapes =
    "_" ∷ "*" ∷ "[" ∷ "]" ∷ "(" ∷ ")" ∷ "~" ∷ "`" ∷ ">" ∷ "#" ∷ "+" ∷ "-" ∷ "=" ∷ "|" ∷ "{" ∷ "}"
    ∷ "." ∷ "!" ∷ []

-- The loop over the tokens.
abbrev pub escape_tokens : List String → String → String
escape_tokens [] result = result
escape_tokens (token ∷ tokens) result =
    escape_tokens tokens (replace_all result token ("\\" <> token))

unfoldable escape_markdown_v2 : String → String
escape_markdown_v2 input = escape_tokens markdown_v2_escapes (replace_all input "\\" "\\\\")
