-- ===== src/Py/Raise.antt =====
-- Code that may raise. Messages are left out; an exception is told by its class.
use scitex_todo.Prelude.{◌≡◌, refl, Bool, true, false}

pub data Exception : Type 0 where
  task_validation_error task_not_found_error store_shrink_refused_error : Exception
  notify_config_error unknown_identity_error : Exception
  user_validation_error agent_identity_error : Exception
  value_error type_error attribute_error key_error runtime_error overflow_error : Exception

pub data Result {ℓ} (A : Type ℓ) : Type ℓ where
  ok : A → Result A
  raise : Exception → Result A

infixl 5 ◌>>=◌ ◌>>◌
abbrev pub ◌>>=◌ {ℓ κ} : {A : Type ℓ} {B : Type κ} → Result A → (A → Result B) → Result B
ok value >>= next = next value
raise error >>= next = raise error

-- A statement, and the rest of the body.
abbrev pub ◌>>◌ {κ} : {B : Type κ} → Result (Unit {0}) → Result B → Result B
statement >> rest = statement >>= λ done. rest

-- `if test: raise error`
abbrev pub raise_if : Bool → Exception → Result (Unit {0})
raise_if false error = ok tt
raise_if true error = raise error

-- A body that returns passed every test on its way.
pub raise_if-eq-ok : (test : Bool) (error : Exception) → raise_if test error ≡ ok tt → test ≡ false
raise_if-eq-ok false error h = refl
raise_if-eq-ok true error h = cc

pub >>-eq-ok {κ} :
    {B : Type κ} (statement : Result (Unit {0})) (rest : Result B) {returned : B}
    → (statement >> rest) ≡ ok returned
    → (statement ≡ ok tt) × (rest ≡ ok returned)
>>-eq-ok (raise error) rest h = cc
>>-eq-ok (ok done) rest h = (refl, h)

pub >>=-eq-ok {ℓ κ} :
    {A : Type ℓ} {B : Type κ} (call : Result A) (next : A → Result B) {returned : B}
    → (call >>= next) ≡ ok returned
    → (value : A) × (call ≡ ok value) × (next value ≡ ok returned)
>>=-eq-ok (raise error) next h = cc
>>=-eq-ok (ok value) next h = (value, refl, h)

pub ok_inj {ℓ} : {A : Type ℓ} {a b : A} → ok a ≡ ok b → a ≡ b
ok_inj h = cc
