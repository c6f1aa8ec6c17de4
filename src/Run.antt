-- ===== src/Run.antt =====
-- How a call of C code ends: with a value, with an access outside a block or an `int` that
-- overflows (which C leaves undefined), or, in the model only, with its fuel used up.
use code_notebook.Base.{◌≡◌, Bool, true, false, Option, none, some, if◌then◌else◌}

pub data Run {ℓ} (A : Type ℓ) : Type ℓ where
  ok : A → Run A
  fault out_of_fuel : Run A

infixl 5 ◌>>=◌
abbrev pub ◌>>=◌ {ℓ κ} : {A : Type ℓ} {B : Type κ} → Run A → (A → Run B) → Run B
◌>>=◌ (ok a) next = next a
◌>>=◌ fault next = fault
◌>>=◌ out_of_fuel next = out_of_fuel

-- What lies at an address, if the block has it.
abbrev pub or_fault {ℓ} : {A : Type ℓ} → Option A → Run A
or_fault none = fault
or_fault (some a) = ok a

-- The call ends with a value, and the value satisfies `P`.
pub data Ends {ℓ κ} {A : Type ℓ} (P : A → Type κ) : Run A → Type (ℓ ⊔ κ) where
  ends : {a : A} → P a → Ends P (ok a)

module _ {ℓ κ} {A : Type ℓ} {P : A → Type κ} where
  pub Ends-bind {ℓ' κ'} :
      {B : Type ℓ'} {Q : B → Type κ'} {first : Run A} {next : A → Run B}
      → ((a : A) → P a → Ends Q (next a))
      → Ends P first
      → Ends Q (first >>= next)
  Ends-bind rest (ends p) = rest _ p

  pub Ends-weaken {κ'} :
      {Q : A → Type κ'} {call : Run A} → ((a : A) → P a → Q a) → Ends P call → Ends Q call
  Ends-weaken weaker (ends p) = ends (weaker _ p)

  pub Ends-value : {call : Run A} → Ends P call → (a : A) × (call ≡ ok a) × P a
  Ends-value (ends {a = a} p) = (a, λ i. ok a, p)

  pub Ends-if :
      {yes_call no_call : Run A} (test : Bool)
      → (test ≡ true → Ends P yes_call)
      → (test ≡ false → Ends P no_call)
      → Ends P (if test then yes_call else no_call)
  Ends-if true p q = p (λ i. true)
  Ends-if false p q = q (λ i. false)
