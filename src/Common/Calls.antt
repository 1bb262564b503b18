-- ===== src/Common/Calls.antt =====
-- How a Go call ends: it returns, it panics, or it blocks for ever; and sequences of such calls.
use Prim.Native.String.{String}

-- The value that a panic carries: a string, or an error value with its message.
pub data Panic : Type 0 where
  string_panic error_panic : String → Panic

pub data Outcome {ℓ} (A : Type ℓ) : Type ℓ where
  returns : A → Outcome A
  panics : Panic → Outcome A
  blocks : Outcome A

-- A method of an object with state `S`. The state comes back beside a panic too, since what was
-- written before it stays written.
abbrev pub Method {ℓ} : Type ℓ → Type ℓ → Type ℓ
Method S A = S → Outcome A × S

module _ {ℓ} {S A : Type ℓ} where
  unfoldable pub pure : A → Method S A
  pure a s = (returns a, s)

module _ {ℓ} {S A B : Type ℓ} where
  -- What follows a call.
  unfoldable pub continue : Outcome A → (A → Method S B) → Method S B
  continue (returns a) f s = f a s
  continue (panics e) f s = (panics e, s)
  continue blocks f s = (blocks, s)

  infixl 10 ◌>>=◌ ◌>>◌
  abbrev pub ◌>>=◌ : Method S A → (A → Method S B) → Method S B
  ◌>>=◌ m f s = let (r, s') = m s in continue r f s'

  abbrev pub ◌>>◌ : Method S A → Method S B → Method S B
  m >> n = m >>= λ _. n
