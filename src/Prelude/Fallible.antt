-- ===== src/Prelude/Fallible.antt =====
-- Code that may raise and changes no state: a chain of results.
use phyai_saas_train_vla.Prelude.Effects.{Result, ok, err}

module _ {E A B : Type 0} where
  infixl 5 ◌>>=◌
  abbrev pub ◌>>=◌ : Result E A → (A → Result E B) → Result E B
  ok a >>= f = f a
  err e >>= f = err e
