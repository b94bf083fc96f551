-- ===== src/Effects/Rules.antt =====
-- What holds of an action's result, whether it returns or throws.
use telegram_news_agent.Effects.{Outcome, returns, throws, Io, continue, ◌>>=◌}

module _ {ℓ κ} {E S A : Type ℓ} (Q : A → S → Type κ) (R : E → S → Type κ) where
  abbrev pub Ensures : Outcome E S A → Type κ
  Ensures (returns a s) = Q a s
  Ensures (throws e s) = R e s

module _ {ℓ κ} {E S A B : Type ℓ} where
  pub Ensures-continue :
      (Q : A → S → Type κ) (P : B → S → Type κ) (R : E → S → Type κ) (o : Outcome E S A)
      (f : A → Io E S B)
      → Ensures Q R o
      → ((a : A) (s : S) → Q a s → Ensures P R (f a s))
      → Ensures P R (continue o f)
  Ensures-continue Q P R (returns a s) f h k = k a s h
  Ensures-continue Q P R (throws e s) f h k = h

-- The action goes from a state to a related one, whether it returns or throws.
module _ {ℓ κ} {E S A : Type ℓ} where
  abbrev pub Moves : (S → S → Type κ) → Io E S A → Type (ℓ ⊔ κ)
  Moves R m = (s : S) → Ensures (λ _ t. R s t) (λ _ t. R s t) (m s)

module _ {ℓ κ} {E S A B : Type ℓ} (R : S → S → Type κ) where
  Moves-continue :
      (trans : (s t u : S) → R s t → R t u → R s u) (s : S) (o : Outcome E S A) (f : A → Io E S B)
      → Ensures (λ _ t. R s t) (λ _ t. R s t) o
      → ((a : A) → Moves R (f a))
      → Ensures (λ _ t. R s t) (λ _ t. R s t) (continue o f)
  Moves-continue trans s (returns a t) f h k = Moves-weaken (f a t) (k a t)
    where
      Moves-weaken :
          (o : Outcome E S B)
          → Ensures (λ _ u. R t u) (λ _ u. R t u) o
          → Ensures (λ _ u. R s u) (λ _ u. R s u) o
      Moves-weaken (returns b u) r = trans s t u h r
      Moves-weaken (throws e u) r = trans s t u h r
  Moves-continue trans s (throws e t) f h k = h

  pub Moves-bind :
      (trans : (s t u : S) → R s t → R t u → R s u) (m : Io E S A) (f : A → Io E S B)
      → Moves R m
      → ((a : A) → Moves R (f a))
      → Moves R (m >>= f)
  Moves-bind trans m f h k s = Moves-continue trans s (m s) f (h s) k

module _ {ℓ κ} {E S A B : Type ℓ} where
  -- What only the last step of a sequence has to establish, where it returns.
  pub Ensures-skip :
      (P : B → S → Type κ) (o : Outcome E S A) (f : A → Io E S B)
      → ((a : A) (s : S) → Ensures P (λ _ _. Unit) (f a s))
      → Ensures P (λ _ _. Unit) (continue o f)
  Ensures-skip P (returns a s) f h = h a s
  Ensures-skip P (throws e s) f h = tt

-- What holds by two accounts of the same result, whether it returns or throws.
module _ {ℓ κ} {E S A : Type ℓ} where
  pub Ensures-zip :
      (P Q : S → Type κ) (R : S → Type κ) (o : Outcome E S A)
      → ((s : S) → P s → Q s → R s)
      → Ensures (λ _. P) (λ _. P) o
      → Ensures (λ _. Q) (λ _. Q) o
      → Ensures (λ _. R) (λ _. R) o
  Ensures-zip P Q R (returns a s) f h k = f s h k
  Ensures-zip P Q R (throws e s) f h k = f s h k

  pub Ensures-map :
      (P Q : A → S → Type κ) (R R' : E → S → Type κ) (o : Outcome E S A)
      → Ensures P R o
      → ((a : A) (s : S) → P a s → Q a s)
      → ((e : E) (s : S) → R e s → R' e s)
      → Ensures Q R' o
  Ensures-map P Q R R' (returns a s) h f g = f a s h
  Ensures-map P Q R R' (throws e s) h f g = g e s h
