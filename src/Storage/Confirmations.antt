-- ===== src/Storage/Confirmations.antt =====
-- internal/storage/repositories.go: proofs on the pending confirmations.
use withdraw_bot.Prelude.{
  ℤ, String, false, Option, none, some, List, [], ◌∷◌, ◌++◌, str_eq, eq_refl, ◌≡◌, refl, sym, ap,
  ap₂, ◌∙◌, ◌⊎◌, inl, inr, Bool-cases, Option-cases, ◌<ℤ◌, ◌≤ℤ◌, if◌then◌else◌, arith,
}
use withdraw_bot.Errors.{Error, ok, err, Result-cases}
use withdraw_bot.Core.{Time}
use withdraw_bot.Storage.{
  PendingConfirmation, Faults, row, without, is_wrong_requester, insert_pending_confirmation,
  select_pending_confirmation, delete_confirmation, consume_pending_confirmation,
}

row-without : (id : String) (table : List PendingConfirmation) → row id (without id table) ≡ none
row-without id [] = refl
row-without id (c ∷ cs) = elim (Bool-cases (str_eq id c.id)) [
  | inl e ↦ ap (λ b. row id (if b then without id cs else c ∷ without id cs)) e ∙ row-without id cs
  | inr e ↦
      ap (λ b. row id (if b then without id cs else c ∷ without id cs)) e
      ∙ ap (λ b. if b then some c else row id (without id cs)) e
      ∙ row-without id cs
]

select-row :
    (f : Faults) (id : String) (table : List PendingConfirmation) {c : PendingConfirmation}
    → select_pending_confirmation f id table ≡ ok c
    → row id table ≡ some c
unfolding select_pending_confirmation
select-row f id table h = ground arith

delete-ok :
    (f : Faults) (id : String) (at : Time) (c : PendingConfirmation)
    (table : List PendingConfirmation) {d : PendingConfirmation}
    → (delete_confirmation f id at c table).0 ≡ ok d
    → (c ≡ d) × (at <ℤ c.expires_at) × ((delete_confirmation f id at c table).1 ≡ without id table)
unfolding delete_confirmation
delete-ok f id at c table h = ground arith

-- A confirmation is handed out only if it was in the table under its id, was requested by the user
-- that is required, if one is, and has not expired; and then it was deleted from the table.
pub consume_sound :
    (f : Faults) (id : String) (at : Time) (user : Option ℤ) (table : List PendingConfirmation)
    {c : PendingConfirmation}
    → (consume_pending_confirmation f id at user table).0 ≡ ok c
    → (row id table ≡ some c)
      × (is_wrong_requester user c ≡ false)
      × (at <ℤ c.expires_at)
      × ((consume_pending_confirmation f id at user table).1 ≡ without id table)
unfolding consume_pending_confirmation
consume_sound f id at user table h = ground arith

failed_consume :
    (f : Faults) (id : String) (at : Time) (user : Option ℤ) (table : List PendingConfirmation)
    → row id table ≡ none
    → (consume_pending_confirmation f id at user table).1 ≡ table
unfolding consume_pending_confirmation select_pending_confirmation
failed_consume f id at user table h = ground arith

absent :
    (g : Faults) (id : String) (at : Time) (user : Option ℤ) (table : List PendingConfirmation)
    → row id table ≡ none
    → (e : Error) × (consume_pending_confirmation g id at user table ≡ (err e, table))
absent g id at user table h =
    elim (Result-cases (consume_pending_confirmation g id at user table).0) [
      | inl (c, r) ↦ let found = (consume_sound g id at user table r).0 in cc
      | inr (e, r) ↦ (e, ap₂ (λ a b. (a, b)) r (failed_consume g id at user table h))
    ]

-- A confirmation that was consumed is not consumed again: right after a success a consumption of the
-- same id, for any user, at any time and with any errors of the database, fails and leaves the
-- table as it is.
pub consume-consume :
    (f g : Faults) (id : String) (at later : Time) (user other : Option ℤ)
    (table : List PendingConfirmation) {c : PendingConfirmation}
    → (consume_pending_confirmation f id at user table).0 ≡ ok c
    → (e : Error) × (consume_pending_confirmation g id later other
          (consume_pending_confirmation f id at user table).1
        ≡ (err e, (consume_pending_confirmation f id at user table).1))
consume-consume f g id at later user other table h =
    let s = consume_sound f id at user table h in
    absent g id later other (consume_pending_confirmation f id at user table).1
      (ap (row id) s.3 ∙ row-without id table)

row-append :
    (c : PendingConfirmation) (table : List PendingConfirmation)
    → row c.id table ≡ none
    → row c.id (table ++ (c ∷ [])) ≡ some c
row-append c [] h = ap (λ b. if b then some c else none) (eq_refl c.id)
row-append c (x ∷ xs) h = elim (Bool-cases (str_eq c.id x.id)) [
  | inl e ↦ let bad = sym (ap (λ b. if b then some x else row c.id xs) e) ∙ h in cc
  | inr e ↦
      ap (λ b. if b then some x else row c.id (xs ++ (c ∷ []))) e
      ∙ row-append c xs (sym (ap (λ b. if b then some x else row c.id xs) e) ∙ h)
]

without-append :
    (c : PendingConfirmation) (table : List PendingConfirmation)
    → row c.id table ≡ none
    → without c.id (table ++ (c ∷ [])) ≡ table
without-append c [] h = ap (λ b. if b then [] else c ∷ []) (eq_refl c.id)
without-append c (x ∷ xs) h = elim (Bool-cases (str_eq c.id x.id)) [
  | inl e ↦ let bad = sym (ap (λ b. if b then some x else row c.id xs) e) ∙ h in cc
  | inr e ↦
      ap (λ b. if b then without c.id (xs ++ (c ∷ [])) else x ∷ without c.id (xs ++ (c ∷ []))) e
      ∙ ap (λ l. x ∷ l)
          (without-append c xs (sym (ap (λ b. if b then some x else row c.id xs) e) ∙ h))
]

-- A database that answers every operation.
abbrev pub no_faults : Error → Faults
no_faults duplicate = record {
  insert = none;
  is_duplicate = duplicate;
  begin = none;
  query = none;
  parse_expires_at = none;
  parse_created_at = none;
  delete = none;
  commit = none;
}

consume_found :
    (d : Error) (id : String) (at : Time) (user : Option ℤ) (table : List PendingConfirmation)
    (c : PendingConfirmation)
    → row id table ≡ some c
    → is_wrong_requester user c ≡ false
    → at <ℤ c.expires_at
    → consume_pending_confirmation (no_faults d) id at user table ≡ (ok c, without id table)
unfolding consume_pending_confirmation select_pending_confirmation delete_confirmation
consume_found d id at user table c found right early = ground arith

insert_free :
    (d : Error) (c : PendingConfirmation) (table : List PendingConfirmation)
    → row c.id table ≡ none
    → insert_pending_confirmation (no_faults d) c table ≡ (none, table ++ (c ∷ []))
unfolding insert_pending_confirmation
insert_free d c table free = ground arith

-- While the database answers, a confirmation whose id is not in the table can be inserted, and its
-- requester, or a caller that requires none, consumes it before it expires: the same confirmation
-- comes back, and the table is again the one from before.
pub consume-insert :
    (d : Error) (c : PendingConfirmation) (at : Time) (user : Option ℤ)
    (table : List PendingConfirmation)
    → row c.id table ≡ none
    → is_wrong_requester user c ≡ false
    → at <ℤ c.expires_at
    → ((insert_pending_confirmation (no_faults d) c table).0 ≡ none)
      × (consume_pending_confirmation
            (no_faults d)
            c.id
            at
            user
            (insert_pending_confirmation (no_faults d) c table).1
          ≡ (ok c, table))
consume-insert d c at user table free right early =
    let inserted = insert_free d c table free in
    (
      ap (λ r. r.0) inserted,
      ap (λ r. consume_pending_confirmation (no_faults d) c.id at user r.1) inserted
          ∙ consume_found d c.id at user (table ++ (c ∷ [])) c (row-append c table free) right early
          ∙ ap (λ l. (ok c, l)) (without-append c table free),
    )

failed_found :
    (f : Faults) (id : String) (at : Time) (user : Option ℤ) (table : List PendingConfirmation)
    (c : PendingConfirmation) {e : Error}
    → row id table ≡ some c
    → (consume_pending_confirmation f id at user table).0 ≡ err e
    → ((consume_pending_confirmation f id at user table).1 ≡ table)
      ⊎ ((is_wrong_requester user c ≡ false)
          × (c.expires_at ≤ℤ at)
          × ((consume_pending_confirmation f id at user table).1 ≡ without id table))
unfolding consume_pending_confirmation select_pending_confirmation delete_confirmation
failed_found f id at user table c r h = ground arith

-- A consumption that fails leaves the table as it is, but for a confirmation that has expired and
-- that the user could have consumed: that one is deleted.
consume_failed :
    (f : Faults) (id : String) (at : Time) (user : Option ℤ) (table : List PendingConfirmation)
    {e : Error}
    → (consume_pending_confirmation f id at user table).0 ≡ err e
    → ((consume_pending_confirmation f id at user table).1 ≡ table)
      ⊎ ((c : PendingConfirmation) × (row id table ≡ some c)
          × (is_wrong_requester user c ≡ false)
          × (c.expires_at ≤ℤ at)
          × ((consume_pending_confirmation f id at user table).1 ≡ without id table))
consume_failed f id at user table h = elim (Option-cases (row id table)) [
  | inl r ↦ inl (failed_consume f id at user table r)
  | inr (c, r) ↦ elim (failed_found f id at user table c r h) [
    | inl same ↦ inl same
    | inr (a, b, d) ↦ inr (c, r, a, b, d)
  ]
]
