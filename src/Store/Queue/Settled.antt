-- ===== src/Store/Queue/Settled.antt =====
-- How a call on the queue ends when bolt may refuse the commit.
use solana_infrastructure.Base.{◌≡◌, refl, true, false, Result, Bool-cases, inl, inr, ok, err}
use solana_infrastructure.Store.Bolt.{Bolt}
use solana_infrastructure.Store.Data.{StoreError}
use solana_infrastructure.Store.Monad.{finish}

-- `out` is the end of a call on `t`: the caller is told `told` and the database is `t'`, or bolt
-- refuses to commit `t'`, the caller gets its error and the database is `t` as before.
pub data Settles (b : Bolt) (t t' : b.Tx) (told : Result StoreError (Unit {0}))
    (out : Result StoreError (Unit {0}) × b.Tx) : Type 0 where
  kept : out ≡ (told, t') → Settles b t t' told out
  rolled_back :
      b.commits t' ≡ false → out ≡ (err StoreError.bolt_error, t) → Settles b t t' told out

-- Where the commit succeeds, the call ends as its body does.
pub Settles-committed :
    (b : Bolt) (t t' : b.Tx) (told : Result StoreError (Unit {0}))
    (out : Result StoreError (Unit {0}) × b.Tx)
    → b.commits t' ≡ true
    → Settles b t t' told out
    → out ≡ (told, t')
Settles-committed b t t' told out c (kept e) = e
Settles-committed b t t' told out c (rolled_back f e) = absurd (cc)

-- A body that succeeds, inside `db.Update`.
pub finish-Settles :
    (b : Bolt) (t t' : b.Tx) (x : Result StoreError (Unit {0}) × b.Tx)
    → x ≡ (ok tt, t')
    → Settles b t t' (ok tt) (finish b.commits t x)
finish-Settles b t t' x e = elim (Bool-cases (b.commits t')) [
  | inl c ↦ kept (rw (e, c) refl)
  | inr c ↦ rolled_back c (rw (e, c) refl)
]
