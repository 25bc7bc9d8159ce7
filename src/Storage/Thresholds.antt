-- ===== src/Storage/Thresholds.antt =====
-- internal/storage/repositories.go: the table of the threshold overrides. It is the list of its rows
-- in the order of their primary key, the module and the key.
use withdraw_bot.Prelude.{
  ℤ, String, Bool, ◌&&◌, ◌||◌, Option, none, some, List, [], ◌∷◌, str_eq, str_ltb, if◌then◌else◌,
}
use withdraw_bot.Errors.{Error, Result, ok, ◌>>◌, ◌>>=◌}
use withdraw_bot.Core.{Time}

pub record StoredOverride : Type 0 where
  pub module_id : String
  pub key : String
  pub value : String
  pub updated_by_user_id : ℤ
  pub updated_at : Time

-- The errors of the driver, and of the parser of the times, in one operation.
pub record OverrideFaults : Type 0 where
  pub upsert : Option Error
  pub query : Option Error
  pub scan : StoredOverride → Option Error
  pub parse_updated_at : StoredOverride → Option Error
  pub rows : Option Error

abbrev pub has_key : String → String → StoredOverride → Bool
has_key module_id key o = str_eq module_id o.module_id && str_eq key o.key

-- The order of the primary key.
abbrev pub is_before : StoredOverride → StoredOverride → Bool
is_before a b =
    str_ltb a.module_id b.module_id || (str_eq a.module_id b.module_id && str_ltb a.key b.key)

-- `INSERT … ON CONFLICT(module_id, key) DO UPDATE …`
unfoldable pub upsert_row : StoredOverride → List StoredOverride → List StoredOverride
upsert_row o [] = o ∷ []
upsert_row o (r ∷ rs) =
    let below = upsert_row o rs in
    if has_key o.module_id o.key r
    then (record r {
      value = o.value;
      updated_by_user_id = o.updated_by_user_id;
      updated_at = o.updated_at;
    }
        ∷ rs)
    else (if is_before o r then o ∷ r ∷ rs else r ∷ below)

-- What the driver answers to the statement, and the table after it.
abbrev pub upserted :
    Option Error → StoredOverride → List StoredOverride → Option Error × List StoredOverride
upserted (some e) o table = (some (Error.wrapped "upsert threshold override" e), table)
upserted none o table = (none, upsert_row o table)

unfoldable pub upsert_threshold_override :
    OverrideFaults
    → String
    → String
    → String
    → ℤ
    → Time
    → List StoredOverride
    → Option Error × List StoredOverride
upsert_threshold_override faults module_id key value user_id at table =
    upserted faults.upsert
      (record {
        module_id = module_id;
        key = key;
        value = value;
        updated_by_user_id = user_id;
        updated_at = at;
      })
      table

abbrev pub wrap : String → Option Error → Option Error
wrap operation none = none
wrap operation (some e) = some (Error.wrapped operation e)

-- The loop over the rows, and the error of the rows at its end.
unfoldable pub scan_overrides : OverrideFaults → List StoredOverride → Result (List StoredOverride)
scan_overrides faults [] = wrap "list threshold overrides" faults.rows >> ok []
scan_overrides faults (r ∷ rs) =
    let rest = scan_overrides faults rs in
    wrap "list threshold override" (faults.scan r)
    >> (wrap "parse threshold override updated_at" (faults.parse_updated_at r)
        >> (rest >>= λ overrides. ok (r ∷ overrides)))

-- `ORDER BY module_id, key` is the order of the table.
unfoldable pub list_threshold_overrides :
    OverrideFaults → List StoredOverride → Result (List StoredOverride)
unfolding scan_overrides
list_threshold_overrides faults table =
    wrap "list threshold overrides" faults.query >> scan_overrides faults table
