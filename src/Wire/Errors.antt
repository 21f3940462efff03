-- ===== src/Wire/Errors.antt =====
-- The errors of the program, one constructor for each message, with the values that the message
-- prints.
use diablo.Prelude.{ℕ, ℤ, Bytes, ◌≡◌, ◌≢◌, refl, ◌⊎◌, inl, inr, arith}

-- Line and column in a benchmark file.
abbrev pub Position : Type 0
Position = ℕ × ℕ

-- What an expression of a benchmark must be.
pub data Expected : Type 0 where
  a_variable_name a_mapping a_mapping_field a_sequence a_scope an_int a_float a_string : Expected
  a_resource : Bytes → Expected

pub data Error : Type 0 where
  -- of `io.ReadFull` and of a connection that does not take what is written
  eof unexpected_eof write_failed : Error
  interface_name_too_long tag_too_long address_too_long : Bytes → Error
  parameter_name_too_long parameter_value_too_long : Bytes → Error
  too_many_parameters too_many_tags too_many_addresses payload_too_large : ℕ → Error
  client_index_too_large interaction_kind_too_large : ℤ → Error
  unknown_prepare_type unknown_result_type : ℕ → Error
  -- of the primary and of the secondary
  invalid_client_id invalid_interaction_kind invalid_client_index : ℤ → Error
  unknown_interface : Bytes → Error
  -- of a random variable, whose events all happened
  random_space_exhausted variable_exhausted wrong_type : Error
  -- of the variables of a benchmark, with their names and domains
  variable_redefined unknown_variable cannot_convert : Bytes → Error
  -- a panic of the Go runtime: a slice has no such element
  index_out_of_range : ℤ → Error
  -- of util/io.go: a number that its variable has no room for
  number_too_large : ℕ → Error
  -- of the clients of a blockchain
  private_key_too_long arguments_too_large unknown_transaction_type : ℕ → Error
  no_premade_accounts : Error
  premade_accounts_used : ℕ → Error
  unknown_interaction_type unknown_prepare_method cannot_compile unknown_function : Bytes → Error
  -- of the expressions of a benchmark, with their positions; `not_implemented` is a panic
  must_be : Expected → Position → Error
  missing_field : Bytes → Position → Error
  field_twice : Position → Position → Error
  no_type no_name not_implemented : Position → Error
  -- of the declaration of a variable; a nil variable panics when it is read
  unknown_variable_type unknown_domain unknown_random_type : Bytes → Error
  not_a_seed invalid_seed no_definition no_compose no_normal : Position → Error
  nil_variable : Error
  -- of a library outside the repository, with its message
  foreign : Bytes → Error
  -- the model's own: a loop ran out of fuel
  out_of_fuel : Error

pub data Result {ℓ} (A : Type ℓ) : Type ℓ where
  ok : A → Result A
  err : Error → Result A

abbrev pub and_then {ℓ κ} : {A : Type ℓ} {B : Type κ} → Result A → (A → Result B) → Result B
and_then (ok a) f = f a
and_then (err e) f = err e

pub Result-cases {ℓ} :
    {A : Type ℓ} (r : Result A) → ((a : A) × (r ≡ ok a)) ⊎ ((e : Error) × (r ≡ err e))
Result-cases (ok a) = inl (a, refl)
Result-cases (err e) = inr (e, refl)

pub and_then-ne-err {ℓ κ} :
    {A : Type ℓ} {B : Type κ} (e : Error) (r : Result A) (f : A → Result B)
    → r ≢ err e
    → ((a : A) → f a ≢ err e)
    → and_then r f ≢ err e
and_then-ne-err e (ok a) f h hf = hf a
and_then-ne-err e (err e') f h hf = λ p. ground (arith, h)

pub and_then-ok {ℓ κ} :
    {A : Type ℓ} {B : Type κ} (r : Result A) (f : A → Result B) {b : B}
    → and_then r f ≡ ok b
    → (a : A) × ((r ≡ ok a) × (f a ≡ ok b))
and_then-ok (ok a) f h = (a, (refl, h))
and_then-ok (err e) f h = cc
