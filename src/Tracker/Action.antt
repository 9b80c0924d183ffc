-- ===== src/Tracker/Action.antt =====
-- Steps of the tracker over what is persisted: an error keeps the writes before it.
use solana_infrastructure.Base.{Result, ok, err, panic}
use solana_infrastructure.Store.Data.{StoreError}
use solana_infrastructure.Store.Monad.{Body}

abbrev pub Action : Type 0 → Type 0 → Type 0 → Type 0
Action F S A = S → Result F A × S

abbrev pub after : {F S A B : Type 0} → Result F A × S → (A → Action F S B) → Result F B × S
after (ok a, s) f = f a s
after (err e, s) f = (err e, s)
after (panic, s) f = (panic, s)

infixl 5 ◌>>=◌ ◌>>◌
abbrev pub ◌>>=◌ : {F S A B : Type 0} → Action F S A → (A → Action F S B) → Action F S B
◌>>=◌ m f s = after (m s) f

abbrev pub ◌>>◌ : {F S B : Type 0} → Action F S (Unit {0}) → Action F S B → Action F S B
◌>>◌ m k s = after (m s) (λ _. k)

-- A value that is computed without the storage.
abbrev pub computed : {F S A : Type 0} → Result F A → Action F S A
computed r s = (r, s)

abbrev pub wrapped : {F S A : Type 0} → (StoreError → F) → Result StoreError A × S → Result F A × S
wrapped f (ok a, s) = (ok a, s)
wrapped f (err e, s) = (err (f e), s)
wrapped f (panic, s) = (panic, s)

-- A call on the storage, with its error wrapped.
abbrev pub storing : {F S A : Type 0} → (StoreError → F) → Body S A → Action F S A
storing f m s = wrapped f (m s)
