-- ===== src/Storage.antt =====
-- internal/storage/repositories.go: the pending confirmations of the database. The table is a list
-- of its rows in the order of their insertion; the times that it keeps as texts are numbers.
pub mod Confirmations
pub mod Thresholds
pub mod Events
pub mod Records
pub mod OverrideRows
pub mod RecentEvents
use withdraw_bot.Prelude.{
  ℤ, pos, String, Bool, true, false, ◌&&◌, not, Option, none, some, List, [], ◌∷◌, ◌++◌, str_eq,
  eqb_ℤ, ltb_ℤ, leb_ℤ, ◌<>◌, if◌then◌else◌,
}
use withdraw_bot.Errors.{Error, Result, ok, err}
use withdraw_bot.Core.{Time}

pub record PendingConfirmation : Type 0 where
  pub id : String
  pub kind : String
  pub payload_json : String
  pub requested_by_user_id : ℤ
  pub expires_at : Time
  pub created_at : Time

-- The errors of the database and of the parser of its times in one operation; `is_duplicate` is the
-- one for a primary key that is in the table already.
pub record Faults : Type 0 where
  pub insert : Option Error
  pub is_duplicate : Error
  pub begin : Option Error
  pub query : Option Error
  pub parse_expires_at : Option Error
  pub parse_created_at : Option Error
  pub delete : Option Error
  pub commit : Option Error

-- The table `pending_confirmations`: `SELECT … WHERE id = ?` and `DELETE … WHERE id = ?`.
abbrev pub row : String → List PendingConfirmation → Option PendingConfirmation
row id [] = none
row id (c ∷ cs) = let below = row id cs in if str_eq id c.id then some c else below

abbrev pub without : String → List PendingConfirmation → List PendingConfirmation
without id [] = []
without id (c ∷ cs) = let below = without id cs in if str_eq id c.id then below else c ∷ below

-- The id is the primary key of the table, so an `INSERT` of one that is there fails.
unfoldable pub insert_pending_confirmation :
    Faults
    → PendingConfirmation
    → List PendingConfirmation
    → Option Error × List PendingConfirmation
insert_pending_confirmation faults confirmation table = elim faults.insert [
  | some e ↦ (some (Error.wrapped "insert pending confirmation" e), table)
  | none ↦ elim (row confirmation.id table) [
    | some _ ↦ (some (Error.wrapped "insert pending confirmation" faults.is_duplicate), table)
    | none ↦ (none, table ++ (confirmation ∷ []))
  ]
]

-- `selectPendingConfirmation`
unfoldable pub select_pending_confirmation :
    Faults → String → List PendingConfirmation → Result PendingConfirmation
select_pending_confirmation faults id table = elim faults.query [
  | some e ↦ err (Error.wrapped "query pending confirmation" e)
  | none ↦ elim (row id table) [
    | none ↦ err (Error.message ("pending confirmation \"" <> id <> "\" not found"))
    | some c ↦ elim faults.parse_expires_at [
      | some e ↦ err (Error.wrapped "parse pending confirmation expires_at" e)
      | none ↦ elim faults.parse_created_at [
        | some e ↦ err (Error.wrapped "parse pending confirmation created_at" e)
        | none ↦ ok c
      ]
    ]
  ]
]

-- The deletion and the commit, and then the test of the expiry.
unfoldable pub delete_confirmation :
    Faults
    → String
    → Time
    → PendingConfirmation
    → List PendingConfirmation
    → Result PendingConfirmation × List PendingConfirmation
delete_confirmation faults id at confirmation table = elim faults.delete [
  | some e ↦ (err (Error.wrapped "delete pending confirmation" e), table)
  | none ↦ elim faults.commit [
    | some e ↦ (err (Error.wrapped "commit pending confirmation transaction" e), table)
    | none ↦ if ltb_ℤ at confirmation.expires_at then (ok confirmation, without id table) else (
      err (Error.message ("pending confirmation \"" <> id <> "\" expired")),
      without id table,
    )
  ]
]

abbrev pub is_wrong_requester : Option ℤ → PendingConfirmation → Bool
is_wrong_requester none confirmation = false
is_wrong_requester (some user_id) confirmation =
    not (eqb_ℤ confirmation.requested_by_user_id user_id)

-- `consumePendingConfirmation`; `user` is the requester that is required, if one is. A transaction
-- that is not committed leaves the table as it was.
unfoldable pub consume_pending_confirmation :
    Faults
    → String
    → Time
    → Option ℤ
    → List PendingConfirmation
    → Result PendingConfirmation × List PendingConfirmation
unfolding select_pending_confirmation delete_confirmation
consume_pending_confirmation faults id at user table = elim faults.begin [
  | some e ↦ (err (Error.wrapped "begin pending confirmation transaction" e), table)
  | none ↦ elim (select_pending_confirmation faults id table) [
    | err e ↦ (err e, table)
    | ok c ↦
        if is_wrong_requester user c
        then (
          err (
              Error.message
                ("pending confirmation \"" <> id <> "\" was requested by a different user")),
          table,
        )
        else delete_confirmation faults id at c table
  ]
]
