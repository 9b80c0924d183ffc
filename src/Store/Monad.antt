-- ===== src/Store/Monad.antt =====
-- What runs inside a bolt transaction: a state monad with errors over the transaction's view.
use solana_infrastructure.Base.{
  Bool, true, false, Option, none, some, Result, ok, err, panic, if◌then◌else◌,
}
use solana_infrastructure.Store.Data.{StoreError}

-- A failing body leaves the writes before the failure in the transaction.
abbrev pub Body : Type 0 → Type 0 → Type 0
Body S A = S → Result StoreError A × S

abbrev pub next :
    {S A B : Type 0} → Result StoreError A × S → (A → Body S B) → Result StoreError B × S
next (ok a, t) f = f a t
next (err e, t) f = (err e, t)
next (panic, t) f = (panic, t)

infixl 5 ◌>>=◌ ◌>>◌
abbrev pub ◌>>=◌ : {S A B : Type 0} → Body S A → (A → Body S B) → Body S B
◌>>=◌ m f t = next (m t) f

abbrev pub ◌>>◌ : {S B : Type 0} → Body S (Unit {0}) → Body S B → Body S B
◌>>◌ m k t = next (m t) (λ _. k)

abbrev pub pure : {S A : Type 0} → A → Body S A
pure a t = (ok a, t)

abbrev pub fail : {S A : Type 0} → StoreError → Body S A
fail e t = (err e, t)

-- A computation that only reads.
abbrev pub reading : {S A : Type 0} → (S → Result StoreError A) → Body S A
reading f t = (f t, t)

abbrev pub check : {S : Type 0} → Bool → StoreError → Body S (Unit {0})
check true e t = (ok tt, t)
check false e t = (err e, t)

-- `bucket := tx.Bucket(name); if bucket == nil { return err }`.
abbrev pub require_bucket : {S N : Type 0} → (N → S → Bool) → N → Body S (Unit {0})
require_bucket has n t = check (has n t) StoreError.bucket_missing t

-- A write that bolt may refuse.
abbrev pub writing : {S : Type 0} → (S → Option S) → Body S (Unit {0})
writing w t = elim (w t) [ none ↦ (err StoreError.bolt_error, t) | some t' ↦ (ok tt, t') ]

-- `db.Update`: the body's writes are kept if it returns no error and the commit succeeds; an error
-- and a panic roll them back.
abbrev pub finish :
    {S A : Type 0} → (S → Bool) → S → Result StoreError A × S → Result StoreError A × S
finish commits t (ok a, t') = if commits t' then (ok a, t') else (err StoreError.bolt_error, t)
finish commits t (err e, t') = (err e, t)
finish commits t (panic, t') = (panic, t)

abbrev pub update_with : {S A : Type 0} → (S → Bool) → Body S A → Body S A
update_with commits body t = finish commits t (body t)

-- `db.View`: nothing is kept.
abbrev pub view : {S A : Type 0} → Body S A → Body S A
view body t = ((body t).0, t)

-- The `StorageTransaction` that a method is given: nil, a `*bolt.Tx`, or another type.
pub data StorageTransaction (S : Type 0) : Type 0 where
  nil_tx : StorageTransaction S
  bolt_tx : S → StorageTransaction S
  other_tx : StorageTransaction S

-- The database and the caller's transaction after a call.
pub record Stores (S : Type 0) : Type 0 where
  pub db : S
  pub tx : StorageTransaction S

abbrev ran_in_db :
    {S A : Type 0} → StorageTransaction S → Result StoreError A × S → Result StoreError A × Stores S
ran_in_db tx (r, t') = (r, record { db = t'; tx = tx })

abbrev ran_in_tx : {S A : Type 0} → S → Result StoreError A × S → Result StoreError A × Stores S
ran_in_tx d (r, t') = (r, record { db = d; tx = bolt_tx t' })

-- The end of `StoreBlock`, `StoreEvent` and `StoreLatestBlockPoint`: the body runs in a transaction
-- of its own, or in the caller's.
abbrev pub run_in :
    {S A : Type 0}
    → (S → Bool)
    → StorageTransaction S
    → Body S A
    → S
    → Result StoreError A × Stores S
run_in commits nil_tx body d = ran_in_db nil_tx (update_with commits body d)
run_in commits (bolt_tx t) body d = ran_in_tx d (body t)
run_in commits other_tx body d =
    (err StoreError.unknown_transaction, record { db = d; tx = other_tx })
