-- ===== src/Budget/Repository/Summary.antt =====
-- What a new transaction does to the sums of the summary view, and what `save` leaves behind.
use collmind_backend.Base.{
  ◌+◌, ◌≡◌, refl, false, ◌&&◌, not, none, some, List, [], ◌∷◌, Uuid, arith, ℤ, pos, ◌+ℤ◌, ◌-ℤ◌,
  int_laws, ◌==◌, if◌then◌else◌, exists, find-none_of_exists,
}
use collmind_backend.Entities.Budget.{
  Envelope, Transaction, TxType, same_type, is_posted, IdempotencyKey, key_eq_refl,
  key_eq-operation,
}
use collmind_backend.Db.{Db, throw_if, Error, ok, err, duplicate_key}
use collmind_backend.Budget.Repository.{
  same_key, create_transaction, sum_where, counts_as, reserved_amount, available_amount,
  tenant_counts_as, get_reserved_amount, find_transaction_by_idempotency_key,
}

-- The row that `save` stores, with the id that the database generates.
abbrev pub stored : Transaction → Db → Transaction
stored tx db = record tx { id = db.uuids db.drawn }

abbrev pub insert_transaction : Transaction → Db → Db
insert_transaction tx db = record db {
  transactions = stored tx db ∷ db.transactions;
  drawn = db.drawn + 1;
}

-- A transaction with a key that is taken, by the tenant, is refused; any other is stored.
pub create_transaction_lem :
    (tx : Transaction) (db : Db)
    → create_transaction tx db ≡ (
        if exists (same_key tx.tenant_id tx.idempotency_key) db.transactions
        then (err (Error.plain duplicate_key), db)
        else (ok (stored tx db), insert_transaction tx db))
unfolding create_transaction throw_if
create_transaction_lem tx db = ground arith

-- What a posted transaction takes from the available amount of an envelope.
abbrev pub taken_by : TxType → ℤ → ℤ
taken_by TxType.reserve amount = amount
taken_by TxType.release amount = pos 0 -ℤ amount
taken_by _ amount = pos 0

abbrev pub takes : Transaction → Uuid → ℤ
takes tx envelope_id =
    if (tx.envelope_id == envelope_id) && is_posted tx.tx_status && not tx.deleted
    then taken_by tx.tx_type tx.amount
    else pos 0

reserved_amount-cons :
    (tx : Transaction) (txs : List Transaction) (envelope_id : Uuid)
    → reserved_amount envelope_id (tx ∷ txs)
      ≡ reserved_amount envelope_id txs +ℤ takes tx envelope_id
unfolding reserved_amount sum_where
reserved_amount-cons tx txs envelope_id = grind int_laws

-- A stored transaction takes its amount from its own envelope, and nothing from another.
pub available-insert :
    (e : Envelope) (tx : Transaction) (db : Db)
    → available_amount e (insert_transaction tx db) ≡ available_amount e db -ℤ takes tx e.id
unfolding available_amount
available-insert e tx db =
    grind (int_laws, reserved_amount-cons (stored tx db) db.transactions e.id)

-- All the transactions of an envelope belong to one tenant.
abbrev pub OneTenant : Uuid → Uuid → List Transaction → Type 0
OneTenant tenant_id envelope_id [] = Unit
OneTenant tenant_id envelope_id (tx ∷ txs) =
    (tx.envelope_id ≡ envelope_id → tx.tenant_id ≡ tenant_id) × OneTenant tenant_id envelope_id txs

tenant-sum_where :
    (t : TxType) (tenant_id envelope_id : Uuid) (txs : List Transaction)
    → OneTenant tenant_id envelope_id txs
    → sum_where (tenant_counts_as t tenant_id envelope_id) txs
      ≡ sum_where (counts_as t envelope_id) txs
unfolding sum_where
tenant-sum_where t tenant_id envelope_id [] h = refl
tenant-sum_where t tenant_id envelope_id (tx ∷ txs) h =
    ground (arith, tenant-sum_where t tenant_id envelope_id txs h.1)

-- `getReservedAmount` and the view's `reserved_amount` agree on an envelope whose transactions all
-- belong to the tenant that asks.
pub get_reserved_amount-eq-reserved_amount :
    (tenant_id envelope_id : Uuid) (db : Db)
    → OneTenant tenant_id envelope_id db.transactions
    → get_reserved_amount tenant_id envelope_id db ≡ reserved_amount envelope_id db.transactions
unfolding get_reserved_amount reserved_amount
get_reserved_amount-eq-reserved_amount tenant_id envelope_id db h = rw (
  tenant-sum_where TxType.reserve tenant_id envelope_id db.transactions h,
  tenant-sum_where TxType.release tenant_id envelope_id db.transactions h,
)

-- The row that was stored last is found by its key.
pub find-insert_self :
    (tx : Transaction) (db : Db)
    → tx.deleted ≡ false
    → find_transaction_by_idempotency_key tx.tenant_id tx.idempotency_key (insert_transaction tx db)
      ≡ some (stored tx db)
unfolding find_transaction_by_idempotency_key
find-insert_self tx db h = ground (arith, key_eq_refl tx.idempotency_key)

-- A key that no row has, deleted rows counted, is not found.
pub find-none_of_free :
    (tenant_id : Uuid) (k : IdempotencyKey) (db : Db)
    → exists (same_key tenant_id k) db.transactions ≡ false
    → find_transaction_by_idempotency_key tenant_id k db ≡ none
unfolding find_transaction_by_idempotency_key
find-none_of_free tenant_id k db h =
    find-none_of_exists (same_key tenant_id k) (λ tx. not tx.deleted) db.transactions h

-- A key stays free when a transaction of another operation is stored.
pub free-insert :
    (tenant_id : Uuid) (k : IdempotencyKey) (tx : Transaction) (db : Db)
    → same_type tx.idempotency_key.operation k.operation ≡ false
    → exists (same_key tenant_id k) db.transactions ≡ false
    → exists (same_key tenant_id k) (insert_transaction tx db).transactions ≡ false
free-insert tenant_id k tx db h free = ground (arith, key_eq-operation tx.idempotency_key k)
