-- ===== src/Prelude/Words.antt =====
-- Native text as Go's package strings reads it: TrimSpace, Fields, HasPrefix and ReplaceAll.
use Prim.Native.Nat.{ℕ, zero, suc, ◌-◌}
use Prim.Native.Char.{Char, code}
use Prim.Native.String.{String, [], ◌∷◌, ◌++◌}
use mathlib.Core.Bool.{Bool, true, false, ◌&&◌, ◌||◌, not}
use mathlib.Core.List.{List, [], ◌∷◌}
use withdraw_bot.Prelude.Tests.{leb, ◌==◌, if◌then◌else◌}

-- `unicode.IsSpace`
abbrev pub is_space : ℕ → Bool
is_space c =
    (leb 9 c && leb c 13)
    || (c == 32 || c == 133 || c == 160 || c == 5760)
    || (leb 8192 c && leb c 8202)
    || (c == 8232 || c == 8233 || c == 8239 || c == 8287 || c == 12288)

abbrev pub trim_text_left : String → String
trim_text_left [] = []
trim_text_left (c ∷ s) = let rest = trim_text_left s in if is_space (code c) then rest else c ∷ s

abbrev pub trim_text_right : String → String
trim_text_right [] = []
trim_text_right (c ∷ s) = elim (trim_text_right s) [
  | [] ↦ (if is_space (code c) then [] else c ∷ [])
  | d ∷ t ↦ c ∷ (d ∷ t)
]

-- `strings.TrimSpace`
abbrev pub trim_text : String → String
trim_text s = trim_text_right (trim_text_left s)

abbrev pub starts_word : String → Bool
starts_word [] = false
starts_word (c ∷ s) = not (is_space (code c))

-- A character before the first word.
abbrev pub extend_word : Char → List String → List String
extend_word c [] = (c ∷ []) ∷ []
extend_word c (w ∷ ws) = (c ∷ w) ∷ ws

-- `strings.Fields`: the longest runs of characters that are no spaces.
abbrev pub fields : String → List String
fields [] = []
fields (c ∷ s) =
    let rest = fields s in
    if is_space (code c)
    then rest
    else (if starts_word s then extend_word c rest else (c ∷ []) ∷ rest)

-- `strings.HasPrefix`
abbrev pub has_prefix : String → String → Bool
has_prefix s [] = true
has_prefix [] (d ∷ t) = false
has_prefix (c ∷ s) (d ∷ t) = code c == code d && has_prefix s t

abbrev pub char_count : String → ℕ
char_count [] = 0
char_count (c ∷ s) = suc (char_count s)

abbrev pub take_text : ℕ → String → String
take_text zero s = []
take_text (suc n) [] = []
take_text (suc n) (c ∷ s) = c ∷ take_text n s

-- The text after `skip` characters that belong to the last match.
abbrev pub replace_from : String → String → ℕ → String → String
replace_from old new skip [] = []
replace_from old new (suc skip) (c ∷ s) = replace_from old new skip s
replace_from old new zero (c ∷ s) =
    let after = replace_from old new (char_count old - 1) s in
    let next = replace_from old new zero s in
    if has_prefix (c ∷ s) old then new ++ after else c ∷ next

-- `strings.ReplaceAll` of a text that is not empty: the matches from the left, none over another.
abbrev pub replace_all : String → String → String → String
replace_all s old new = replace_from old new zero s

-- A character before the first part.
abbrev pub extend_part : Char → List String → List String
extend_part c [] = (c ∷ []) ∷ []
extend_part c (p ∷ ps) = (c ∷ p) ∷ ps

-- `strings.Split` at a character, given by its code.
abbrev pub split_text : ℕ → String → List String
split_text separator [] = [] ∷ []
split_text separator (c ∷ s) =
    let rest = split_text separator s in
    if code c == separator then [] ∷ rest else extend_part c rest
