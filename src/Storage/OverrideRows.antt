-- ===== src/Storage/OverrideRows.antt =====
-- internal/storage/repositories.go: proofs on the threshold overrides.
use withdraw_bot.Prelude.{
  ℤ, String, true, false, ◌&&◌, Option, none, some, List, [], ◌∷◌, str_eq, if◌then◌else◌, ◌≡◌, refl,
  sym, ap, ◌∙◌, subst, arith, eq_iff, str_ltb_total, Bool-cases, inl, inr,
}
use withdraw_bot.Errors.{Error, ok, ◌>>◌, ◌>>=◌, >>-eq-ok, >>=-eq-ok}
use withdraw_bot.Core.{Time}
use withdraw_bot.Storage.Thresholds.{
  StoredOverride, has_key, is_before, upsert_row, OverrideFaults, wrap, upserted, scan_overrides,
  list_threshold_overrides, upsert_threshold_override,
}

-- The row of a module and key, in a table seen as a map.
abbrev pub override_at : String → String → List StoredOverride → Option StoredOverride
override_at module_id key [] = none
override_at module_id key (r ∷ rs) =
    let below = override_at module_id key rs in if has_key module_id key r then some r else below

-- The row stands before the first of the rows.
abbrev pub Precedes : StoredOverride → List StoredOverride → Type 0
Precedes r [] = Unit
Precedes r (s ∷ rs) = is_before r s ≡ true

-- The rows stand in the strict order of their primary key.
abbrev pub IsOrdered : List StoredOverride → Type 0
IsOrdered [] = Unit
IsOrdered (r ∷ rs) = Precedes r rs × IsOrdered rs

override_at-upsert_row :
    (o : StoredOverride) (module_id key : String) (table : List StoredOverride)
    → override_at module_id key (upsert_row o table)
      ≡ (if has_key module_id key o then some o else override_at module_id key table)
unfolding upsert_row
override_at-upsert_row o module_id key [] = refl
override_at-upsert_row o module_id key (r ∷ rs) = ground (
  arith,
  eq_iff module_id o.module_id,
  eq_iff module_id r.module_id,
  eq_iff o.module_id r.module_id,
  eq_iff key o.key,
  eq_iff key r.key,
  eq_iff o.key r.key,
  override_at-upsert_row o module_id key rs,
)

is_before_total :
    (o r : StoredOverride)
    → has_key o.module_id o.key r ≡ false
    → is_before o r ≡ false
    → is_before r o ≡ true
is_before_total o r other not_before = ground (
  arith,
  eq_iff o.module_id r.module_id,
  eq_iff r.module_id o.module_id,
  str_ltb_total o.module_id r.module_id,
  str_ltb_total o.key r.key,
)

upsert_row-Precedes :
    (o r : StoredOverride) (table : List StoredOverride)
    → is_before r o ≡ true
    → Precedes r table
    → Precedes r (upsert_row o table)
unfolding upsert_row
upsert_row-Precedes o r [] first h = first
upsert_row-Precedes o r (s ∷ rs) first h = ground arith

Precedes-updated :
    (o r : StoredOverride) (rs : List StoredOverride)
    → Precedes r rs
    → Precedes (record o { module_id = r.module_id; key = r.key }) rs
Precedes-updated o r [] h = tt
Precedes-updated o r (s ∷ rs) h = h

upsert_row-IsOrdered :
    (o : StoredOverride) (table : List StoredOverride)
    → IsOrdered table
    → IsOrdered (upsert_row o table)
unfolding upsert_row
upsert_row-IsOrdered o [] h = (tt, tt)
upsert_row-IsOrdered o (r ∷ rs) h = elim (Bool-cases (has_key o.module_id o.key r)) [
  | inl same ↦ rw same (Precedes-updated o r rs h.0, h.1)
  | inr other ↦ rw other (elim (Bool-cases (is_before o r)) [
    | inl first ↦ rw first (first, h)
    | inr later ↦ rw later (
      upsert_row-Precedes o r rs (is_before_total o r other later) h.0,
      upsert_row-IsOrdered o rs h.1,
    )
  ])
]

scan_all :
    (faults : OverrideFaults) (table : List StoredOverride) {overrides : List StoredOverride}
    → scan_overrides faults table ≡ ok overrides
    → overrides ≡ table
unfolding scan_overrides
scan_all faults [] h =
    let p = >>-eq-ok (wrap "list threshold overrides" faults.rows) (ok []) h in cc
scan_all faults (r ∷ rs) h =
    let a =
      >>-eq-ok (wrap "list threshold override" (faults.scan r))
        (wrap "parse threshold override updated_at" (faults.parse_updated_at r)
          >> (scan_overrides faults rs >>= λ overrides. ok (r ∷ overrides)))
        h in
    let b =
      >>-eq-ok (wrap "parse threshold override updated_at" (faults.parse_updated_at r))
        (scan_overrides faults rs >>= λ overrides. ok (r ∷ overrides)) a.1 in
    let (rest, c, d) = >>=-eq-ok (scan_overrides faults rs) (λ overrides. ok (r ∷ overrides)) b.1 in
    let e = scan_all faults rs c in cc

list_all :
    (faults : OverrideFaults) (table : List StoredOverride) {overrides : List StoredOverride}
    → list_threshold_overrides faults table ≡ ok overrides
    → overrides ≡ table
unfolding list_threshold_overrides
list_all faults table h =
    scan_all faults table
      (>>-eq-ok (wrap "list threshold overrides" faults.query) (scan_overrides faults table) h).1

upserted-upsert_row :
    (answer : Option Error) (o : StoredOverride) (table : List StoredOverride)
    → (upserted answer o table).0 ≡ none
    → (upserted answer o table).1 ≡ upsert_row o table
upserted-upsert_row none o table h = refl
upserted-upsert_row (some e) o table h = cc

-- An override that was stored is read back: after an upsert that succeeded, a list that succeeds
-- has, in the strict order of modules and keys, the new value with its user and time at its module
-- and key, and at every other module and key what stood there before.
pub list_threshold_overrides-upsert :
    (faults later : OverrideFaults) (m k value : String) (user_id : ℤ) (at : Time)
    (table : List StoredOverride) {overrides : List StoredOverride}
    → IsOrdered table
    → (upsert_threshold_override faults m k value user_id at table).0 ≡ none
    → list_threshold_overrides later (upsert_threshold_override faults m k value user_id at table).1
      ≡ ok overrides
    → IsOrdered overrides
      × ((module_id key : String)
          → override_at module_id key overrides ≡ (
              if str_eq module_id m && str_eq key k
              then some (record {
                module_id = m;
                key = k;
                value = value;
                updated_by_user_id = user_id;
                updated_at = at;
              })
              else override_at module_id key table))
unfolding upsert_threshold_override
list_threshold_overrides-upsert faults later m k value user_id at table ordered stored listed =
    let o : StoredOverride = record {
      module_id = m;
      key = k;
      value = value;
      updated_by_user_id = user_id;
      updated_at = at;
    } in
    let same =
      list_all later (upserted faults.upsert o table).1 listed
      ∙ upserted-upsert_row faults.upsert o table stored in
    (
      subst IsOrdered (sym same) (upsert_row-IsOrdered o table ordered),
      λ module_id key.
          ap (override_at module_id key) same ∙ override_at-upsert_row o module_id key table,
    )
