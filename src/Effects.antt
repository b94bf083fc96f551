-- ===== src/Effects.antt =====
-- Asynchronous methods. An injected port is a function of the world outside the program; a method
-- is an action on a state that holds this world and the calls made so far, the latest first. It
-- returns or throws, and the state comes back in both cases.
pub mod Rules
use telegram_news_agent.Prelude.{List, ◌∷◌, Option, none, some, Bool, true, false}

pub data Outcome {ℓ} (E S A : Type ℓ) : Type ℓ where
  returns : A → S → Outcome E S A
  throws : E → S → Outcome E S A

abbrev pub Io {ℓ} : Type ℓ → Type ℓ → Type ℓ → Type ℓ
Io E S A = S → Outcome E S A

module _ {ℓ} {E S A : Type ℓ} where
  abbrev pub pure : A → Io E S A
  pure a s = returns a s

  abbrev pub throw : E → Io E S A
  throw e s = throws e s

  abbrev pub handle : Outcome E S A → (E → Io E S A) → Outcome E S A
  handle (returns a s) h = returns a s
  handle (throws e s) h = h e s

  -- `try { m } catch (e) { h e }`
  abbrev pub catch : Io E S A → (E → Io E S A) → Io E S A
  catch m h s = handle (m s) h

module _ {ℓ} {E S A B : Type ℓ} where
  abbrev pub continue : Outcome E S A → (A → Io E S B) → Outcome E S B
  continue (returns a s) f = f a s
  continue (throws e s) f = throws e s

  infixl 5 ◌>>=◌ ◌>>◌
  abbrev pub ◌>>=◌ : Io E S A → (A → Io E S B) → Io E S B
  ◌>>=◌ m f s = continue (m s) f

  abbrev pub ◌>>◌ : Io E S A → Io E S B → Io E S B
  m >> n = m >>= λ _. n

  abbrev pub settle : Outcome E S A → (A → Io E S B) → (E → Io E S B) → Outcome E S B
  settle (returns a s) f h = f a s
  settle (throws e s) f h = h e s

  -- a result that the code keeps for later, or the error that it catches
  abbrev pub attempt : Io E S A → (A → Io E S B) → (E → Io E S B) → Io E S B
  attempt m f h s = settle (m s) f h

-- what a port knows, and the calls that the program made
pub record Traced (W C : Type 0) : Type 0 where
  pub world : W
  pub calls : List C

module _ {E W C A : Type 0} where
  abbrev pub resume : List C → Outcome E W A → Outcome E (Traced W C) A
  resume cs (returns a w) = returns a (record { world = w; calls = cs })
  resume cs (throws e w) = throws e (record { world = w; calls = cs })

  -- one awaited call of a port
  abbrev pub perform : C → (W → Outcome E W A) → Io E (Traced W C) A
  perform c port s = resume (c ∷ s.calls) (port s.world)

  -- the same, noted with its answer where there is one
  abbrev pub resume_noted : (Option A → C) → List C → Outcome E W A → Outcome E (Traced W C) A
  resume_noted note cs (returns a w) = returns a (record { world = w; calls = note (some a) ∷ cs })
  resume_noted note cs (throws e w) = throws e (record { world = w; calls = note none ∷ cs })

  abbrev pub perform_noted : (Option A → C) → (W → Outcome E W A) → Io E (Traced W C) A
  perform_noted note port s = resume_noted note s.calls (port s.world)
