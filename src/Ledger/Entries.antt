-- ===== src/Ledger/Entries.antt =====
-- What a posting does to the ledger, to the sums over it, and to the budget.
use collmind_backend.Base.{
  ◌+◌, ◌≡◌, refl, true, some, List, [], ◌∷◌, Uuid, arith, pos, ◌-ℤ◌, int_laws, ◌==◌, if◌then◌else◌,
  Option-cases, inl, inr, ◌⊎◌,
}
use collmind_backend.Entities.Budget.{Envelope, LedgerEntry, LedgerKey, Direction, column_is}
use collmind_backend.Db.{Db}
use collmind_backend.Db.Ends.{Ends, returns, throw_if_rule}
use collmind_backend.Budget.Repository.{consumed_amount, available_amount}
use collmind_backend.Ledger.{
  find_entry_by_key, save_entry, unless_posted, CreateEntryDto, entry_of, create_entry, sum_entries,
  of_envelope, get_consumed_by_envelope,
}

-- The row that `save` stores, with the id that the database generates.
abbrev pub stored_entry : LedgerEntry → Db → LedgerEntry
stored_entry le db = record le { id = db.uuids db.drawn }

abbrev pub insert_entry : LedgerEntry → Db → Db
insert_entry le db = record db {
  ledger_entries = stored_entry le db ∷ db.ledger_entries;
  drawn = db.drawn + 1;
}

-- An entry that is known under its key is returned; another is stored, if its key is free.
pub create_entry_outcome :
    (dto : CreateEntryDto) (tenant_id user_id : Uuid) (key : LedgerKey) (db : Db)
    → Ends
        (λ le db'.
          ((db' ≡ db) × (find_entry_by_key key tenant_id db ≡ some le))
          ⊎ (db' ≡ insert_entry (entry_of dto tenant_id user_id key) db))
        (λ e db'. db' ≡ db)
        (create_entry dto tenant_id user_id key db)
unfolding create_entry unless_posted save_entry
create_entry_outcome dto tenant_id user_id key db =
    elim (Option-cases (find_entry_by_key key tenant_id db)) [
      | inl fresh ↦ rw fresh (throw_if_rule _ _ _ _ (λ taken. refl) (λ free. returns (inr refl)))
      | inr (le, found) ↦ rw found (returns (inl (refl, refl)))
    ]

-- A debit takes its amount from the available amount of its envelope, and from no other.
pub available-insert_entry :
    (e : Envelope) (dto : CreateEntryDto) (tenant_id user_id : Uuid) (key : LedgerKey) (db : Db)
    → available_amount e (insert_entry (entry_of dto tenant_id user_id key) db)
      ≡ available_amount e db -ℤ (if dto.budget_envelope_id == e.id then dto.amount else pos 0)
unfolding available_amount consumed_amount
available-insert_entry e dto tenant_id user_id key db = grind int_laws

-- Every entry of an envelope belongs to the tenant and is a debit.
abbrev pub TenantDebits : Uuid → Uuid → List LedgerEntry → Type 0
TenantDebits tenant_id envelope_id [] = Unit
TenantDebits tenant_id envelope_id (le ∷ les) =
    (column_is le.budget_envelope_id envelope_id ≡ true
      → (le.tenant_id ≡ tenant_id) × (le.entry_direction ≡ Direction.debit))
    × TenantDebits tenant_id envelope_id les

sums-agree :
    (tenant_id envelope_id : Uuid) (les : List LedgerEntry)
    → TenantDebits tenant_id envelope_id les
    → sum_entries (of_envelope envelope_id tenant_id) les ≡ consumed_amount envelope_id les
unfolding sum_entries consumed_amount
sums-agree tenant_id envelope_id [] h = refl
sums-agree tenant_id envelope_id (le ∷ les) h =
    ground (arith, sums-agree tenant_id envelope_id les h.1)

-- The ledger's own total for an envelope and the amount that the budget view has as consumed agree
-- where every entry of the envelope is a debit of the tenant that asks.
pub get_consumed_by_envelope-eq-consumed_amount :
    (tenant_id envelope_id : Uuid) (db : Db)
    → TenantDebits tenant_id envelope_id db.ledger_entries
    → get_consumed_by_envelope envelope_id tenant_id db
      ≡ consumed_amount envelope_id db.ledger_entries
unfolding get_consumed_by_envelope
get_consumed_by_envelope-eq-consumed_amount tenant_id envelope_id db h =
    sums-agree tenant_id envelope_id db.ledger_entries h
