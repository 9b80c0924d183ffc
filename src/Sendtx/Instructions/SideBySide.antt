-- ===== src/Sendtx/Instructions/SideBySide.antt =====
-- Runs of the builders' steps on two configs, side by side.
use solana_infrastructure.Base.{
  ◌≡◌, refl, sym, ◌∙◌, List, Result, ok, err, panic, ◌>>=◌, ◌>>◌, ap, arith,
}
use solana_infrastructure.Sendtx.Config.{ConfigError, InstructionConfig, InstructionConfigOption}
use solana_infrastructure.Sendtx.Monad.{
  M, SendError, bind_result, options, lift, config, return, ◌>>=◌ as ◌>>=m◌, ◌>>◌ as ◌>>m◌,
}

-- A computation returns the same on two configs.
pub record SameRun {B : Type 0} (m : M B) (c c' : InstructionConfig) : Type 0 where
  pub results : (m c).1 ≡ (m c').1

-- A step that does not touch the config.
pub record Still {A : Type 0} (m : M A) : Type 0 where
  pub value : Result SendError A
  pub still : (x : InstructionConfig) → m x ≡ (x, value)

abbrev pub after : {B : Type 0} → List InstructionConfigOption → M B → M B
after os k = options os >>m k

abbrev pub mapped :
    {A : Type 0}
    → (A → InstructionConfig)
    → Result ConfigError A
    → Result ConfigError InstructionConfig
mapped g r = r >>= λ a. ok (g a)

pub then_mapped :
    {A : Type 0} (m : Result ConfigError (Unit {0})) (r : Result ConfigError A)
    (g : A → InstructionConfig)
    → (m >> mapped g r) ≡ mapped g (m >> r)
then_mapped (ok u) r g = refl
then_mapped (err e) r g = refl
then_mapped panic r g = refl

pub lift-Still : {A : Type 0} (r : Result SendError A) → Still (lift r)
unfolding lift
lift-Still r = record { value = r; still = λ x. refl }

bind_results :
    {A B : Type 0} (m : M A) (f : A → M B) (c c' : InstructionConfig) (r : Result SendError A)
    → ((x : InstructionConfig) → m x ≡ (x, r))
    → ((a : A) → (f a c).1 ≡ (f a c').1)
    → ((m >>=m f) c).1 ≡ ((m >>=m f) c').1
unfolding ◌>>=m◌
bind_results m f c c' (ok a) still h = ground (arith, still c, still c', h a)
bind_results m f c c' (err e) still h = ground (arith, still c, still c')
bind_results m f c c' panic still h = ground (arith, still c, still c')

pub bind_same :
    {A B : Type 0} (m : M A) (f : A → M B) (c c' : InstructionConfig)
    → Still m
    → ((a : A) → SameRun (f a) c c')
    → SameRun (m >>=m f) c c'
bind_same m f c c' s h = record {
  results = bind_results m f c c' s.value s.still (λ a. (h a).results);
}

pub then_same :
    {B : Type 0} (m : M (Unit {0})) (k : M B) (c c' : InstructionConfig)
    → Still m
    → SameRun k c c'
    → SameRun (m >>m k) c c'
then_same m k c c' s h = bind_same m (λ _. k) c c' s (λ _. h)

pub return-Still : {A : Type 0} (a : A) → Still (return a)
unfolding return
return-Still a = record { value = ok a; still = λ x. refl }

abbrev next : {A B : Type 0} → Result SendError A → (A → Result SendError B) → Result SendError B
next r f = r >>= f

bind_fixed :
    {A B : Type 0} (m : M A) (f : A → M B) (g : A → Result SendError B) (r : Result SendError A)
    (x : InstructionConfig)
    → m x ≡ (x, r)
    → ((a : A) → f a x ≡ (x, g a))
    → (m >>=m f) x ≡ (x, next r g)
unfolding ◌>>=m◌
bind_fixed m f g (ok a) x e h = ground (arith, e, h a)
bind_fixed m f g (err e) x h k = ground (arith, h)
bind_fixed m f g panic x h k = ground (arith, h)

pub bind-Still :
    {A B : Type 0} (m : M A) (f : A → M B) → Still m → ((a : A) → Still (f a)) → Still (m >>=m f)
bind-Still m f s h = record {
  value = next s.value (λ a. (h a).value);
  still = λ x. bind_fixed m f (λ a. (h a).value) s.value x (s.still x) (λ a. (h a).still x);
}

pub then-Still : {B : Type 0} (m : M (Unit {0})) (k : M B) → Still m → Still k → Still (m >>m k)
then-Still m k s h = bind-Still m (λ _. k) s (λ _. h)

pub then_lift :
    {B : Type 0} (r : Result SendError (Unit {0})) (k : M B) (c c' : InstructionConfig)
    → SameRun k c c'
    → SameRun (lift r >>m k) c c'
then_lift r k c c' h = then_same (lift r) k c c' (lift-Still r) h

pub bind_lift :
    {A B : Type 0} (r : Result SendError A) (f : A → M B) (c c' : InstructionConfig)
    → ((a : A) → SameRun (f a) c c')
    → SameRun (lift r >>=m f) c c'
bind_lift r f c c' h = bind_same (lift r) f c c' (lift-Still r) h

pub return_same : {A : Type 0} (a : A) (c c' : InstructionConfig) → SameRun (return a) c c'
unfolding return
return_same a c c' = record { results = refl }

-- The config is read where the part that is used is the same.
pub config_same :
    {B : Type 0} (f : InstructionConfig → M B) (c c' : InstructionConfig)
    → f c ≡ f c'
    → SameRun (f c) c c'
    → SameRun (config >>=m f) c c'
unfolding config ◌>>=m◌
config_same f c c' e h = record { results = h.results ∙ ap (λ (m : M _). (m c').1) e }

-- Behind a step that returns the same, steps that do not touch the config return the same.
pub results_then :
    {A B : Type 0} (f : A → M B) (h : (a : A) → Still (f a))
    (x : InstructionConfig × Result SendError A)
    → (bind_result x.1 f x.0).1 ≡ next x.1 (λ a. (h a).value)
results_then f h (c, ok a) =
    ap (λ (y : InstructionConfig × Result SendError _). y.1) ((h a).still c)
results_then f h (c, err e) = refl
results_then f h (c, panic) = refl

pub same_then :
    {A B : Type 0} (m : M A) (f : A → M B) (c c' : InstructionConfig)
    → SameRun m c c'
    → ((a : A) → Still (f a))
    → SameRun (m >>=m f) c c'
unfolding ◌>>=m◌
same_then m f c c' h k = record {
  results =
      results_then f k (m c)
      ∙ ap (λ r. next r (λ a. (k a).value)) h.results
      ∙ sym (results_then f k (m c'));
}
