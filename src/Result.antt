-- ===== src/Result.antt =====
-- The exceptions of the operator (operator/gefyra/bridge/exceptions.py,
-- operator/gefyra/bridge_mount/exceptions.py, kopf's and Python's own, with tarfile's ReadError) as
-- values. The texts of the messages are left out, and of an API exception the status is kept.
use gefyra.Prelude.{ap, List, ◌∷◌, Option, none, some, ℕ, ◌≡◌, refl, ◌⊎◌, inl, inr}

pub data Error : Type 0 where
  mount_exception mount_target_exception mount_install_exception : Error
  bridge_install_exception : Error
  temporary_error permanent_error admission_error transition_not_allowed : Error
  runtime_error value_error key_error index_error type_error attribute_error : Error
  stop_iteration read_error : Error
  api_exception : ℕ → Error

pub data Result {ℓ} (A : Type ℓ) : Type ℓ where
  ok : A → Result A
  err : Error → Result A

module _ {ℓ κ} {A : Type ℓ} {B : Type κ} where
  infixl 5 ◌>>=◌
  abbrev pub ◌>>=◌ : Result A → (A → Result B) → Result B
  err x >>= next = err x
  ok a >>= next = next a

  -- What a chain that succeeds went through.
  pub >>=-eq-ok :
      {b : B} (r : Result A) (next : A → Result B)
      → (r >>= next) ≡ ok b
      → (a : A) × (r ≡ ok a) × (next a ≡ ok b)
  >>=-eq-ok (err x) next e = cc
  >>=-eq-ok (ok a) next e = (a, refl, e)

infixl 5 ◌>>◌
abbrev pub ◌>>◌ {ℓ} : {B : Type ℓ} → Result (Unit {0}) → Result B → Result B
first >> second = first >>= λ _. second

-- To split on a computed result and keep the equation.
pub Result-cases {ℓ} :
    {A : Type ℓ} (r : Result A) → ((a : A) × (r ≡ ok a)) ⊎ ((e : Error) × (r ≡ err e))
Result-cases (ok a) = inl (a, refl)
Result-cases (err e) = inr (e, refl)

pub ok-injective {ℓ} : {A : Type ℓ} {a b : A} → ok a ≡ ok b → a ≡ b
ok-injective e = cc

-- `parts[1]`
abbrev pub second {ℓ} : {A : Type ℓ} → List A → Result A
second (a ∷ b ∷ rest) = ok b
second _ = err index_error

-- A value that may be missing, or the exception that a missing one raises.
abbrev pub or_raise {ℓ} : {A : Type ℓ} → Error → Option A → Result A
or_raise e none = err e
or_raise e (some a) = ok a

pub or_raise-eq-ok {ℓ} :
    {A : Type ℓ} (x : Error) (o : Option A) (a : A) → or_raise x o ≡ ok a → o ≡ some a
or_raise-eq-ok x none a e = cc
or_raise-eq-ok x (some b) a e = ap some (ok-injective e)
