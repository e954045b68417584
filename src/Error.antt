-- ===== src/Error.antt =====
-- include/runi/core/error.hpp, src/core/error.cpp and include/runi/core/result.hpp: errors as
-- values. `Error::safe_details` is left out: no modelled code sets it to anything but the empty
-- object.
use runi.Prelude.{Bytes, Bool, false, bytes, ◌≡◌, refl, ◌⊎◌, inl, inr}

pub data ErrorCategory : Type 0 where
  configuration model_transport model_protocol parse validation policy_denied : ErrorCategory
  path_violation tool_execution timeout persistence resume_mismatch internal : ErrorCategory

pub record Error : Type 0 where
  pub category : ErrorCategory
  pub code : Bytes
  pub message : Bytes
  pub retryable : Bool

abbrev pub make_error : ErrorCategory → Bytes → Bytes → Error
make_error category code message = record {
  category = category;
  code = code;
  message = message;
  retryable = false;
}

pub data Result {ℓ} (A : Type ℓ) : Type ℓ where
  success : A → Result A
  failure : Error → Result A

infixl 5 ◌>>=◌ ◌>>◌
abbrev pub ◌>>=◌ {ℓ κ} : {A : Type ℓ} {B : Type κ} → Result A → (A → Result B) → Result B
success a >>= f = f a
failure e >>= f = failure e

abbrev pub ◌>>◌ {ℓ} : {B : Type ℓ} → Result (Unit {0}) → Result B → Result B
m >> k = m >>= λ _. k

unfoldable pub category_name : ErrorCategory → Bytes
category_name ErrorCategory.configuration = bytes "configuration"
category_name ErrorCategory.model_transport = bytes "model_transport"
category_name ErrorCategory.model_protocol = bytes "model_protocol"
category_name ErrorCategory.parse = bytes "parse"
category_name ErrorCategory.validation = bytes "validation"
category_name ErrorCategory.policy_denied = bytes "policy_denied"
category_name ErrorCategory.path_violation = bytes "path_violation"
category_name ErrorCategory.tool_execution = bytes "tool_execution"
category_name ErrorCategory.timeout = bytes "timeout"
category_name ErrorCategory.persistence = bytes "persistence"
category_name ErrorCategory.resume_mismatch = bytes "resume_mismatch"
category_name ErrorCategory.internal = bytes "internal"

pub Result-cases {ℓ} :
    {A : Type ℓ} (r : Result A) → ((a : A) × (r ≡ success a)) ⊎ ((e : Error) × (r ≡ failure e))
Result-cases (success a) = inl (a, refl)
Result-cases (failure e) = inr (e, refl)
