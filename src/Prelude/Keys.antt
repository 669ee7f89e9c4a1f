-- ===== src/Prelude/Keys.antt =====
-- Keys of the program's dicts with a decidable equality that computes: options and pairs.
use mathlib.Core.Option.{Option, none, some}
use mathlib.Core.Path.{◌≡◌, refl, ap}

module _ {ℓ} {A : Type ℓ} where
  option_step : {a b : A} → Dec (a ≡ b) → Dec (some a ≡ some b)
  option_step (yes p) = yes (ap {B = Option A} some p)
  option_step (no n) = no (λ e. n (cc))

  unfoldable pub Option-discrete : Discrete A → Discrete (Option A)
  unfolding option_step
  Option-discrete d none none = yes refl
  Option-discrete d none (some b) = no (λ e. cc)
  Option-discrete d (some a) none = no (λ e. cc)
  Option-discrete d (some a) (some b) = option_step (d a b)

module _ {ℓ} {A B : Type ℓ} where
  pair_step : {a c : A} {b d : B} → Dec (a ≡ c) → Dec (b ≡ d) → Dec (◌≡◌ {A = A × B} (a, b) (c, d))
  pair_step (yes p) (yes q) = yes (λ i. (p i, q i))
  pair_step (yes p) (no n) = no (λ e. n (ap (λ (x : A × B). x.1) e))
  pair_step (no n) _ = no (λ e. n (ap (λ (x : A × B). x.0) e))

  unfoldable pub pair_discrete : Discrete A → Discrete B → Discrete (A × B)
  unfolding pair_step
  pair_discrete dA dB (a, b) (c, d) = pair_step (dA a c) (dB b d)
