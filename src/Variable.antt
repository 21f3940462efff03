-- ===== src/Variable.antt =====
-- core/variable.go: variables over a sample, read as integers, floats and strings.
pub mod Immediate
pub mod Range
use diablo.Prelude.{
  ℕ, ◌+◌, ◌-◌, ◌%◌, ◌^◌, Bool, Option, none, some, Bytes, ℤ, pos, negsuc, wrap, ltb, leb,
  if◌then◌else◌,
}
use diablo.Float.{Float64}
use diablo.Wire.Errors.{Error, Result, ok, err, wrong_type}
use diablo.Random.{VariableType, regular, Uniform, select, copy, new_uniform}

-- The values that a sample holds; `other` stands for the resources of a blockchain.
pub data Opaque : Type 0 where
  int : ℤ → Opaque
  float : Float64 → Opaque
  text : Bytes → Opaque
  other : Opaque

-- `Get` of the sample and the distribution: a failing `Select` is nil, `none` here; an index outside
-- the sample panics.
unfoldable pub get_variable {ℓ} :
    {A : Type ℓ} → (ℕ → Result A) → ℕ → Uniform → Result (Option A) × Uniform
get_variable get draw d =
    let (index, d') = select draw d in
    elim index [
      | err e ↦ (ok none, d')
      | ok i ↦ elim (get i) [ err e ↦ (err e, d') | ok element ↦ (ok (some element), d') ]
    ]

pub record VariableImpl : Type 0 where
  pub domain : Bytes
  pub sample : ℕ → Result Opaque
  pub distrib : Uniform

-- `copyVariable`; the seed only decides on the numbers that are drawn.
unfoldable pub copy_variable : VariableType → VariableImpl → VariableImpl
copy_variable vtype source = record source { distrib = copy vtype source.distrib }

-- `opaque.(int)` and `opaque.(string)`, which panic on a value of another type.
unfoldable pub as_int : Opaque → Result ℤ
as_int (int i) = ok i
as_int (float f) = err wrong_type
as_int (text s) = err wrong_type
as_int other = err wrong_type

unfoldable pub as_string : Opaque → Result Bytes
as_string (int i) = err wrong_type
as_string (float f) = err wrong_type
as_string (text s) = ok s
as_string other = err wrong_type

-- What a `TryGet` makes of what `Get` returned: `none` for false.
unfoldable pub try_as {ℓ κ} :
    {A : Type ℓ} {B : Type κ} → (A → Result B) → Result (Option A) → Result (Option B)
try_as f (err e) = err e
try_as f (ok none) = ok none
try_as f (ok (some a)) = elim (f a) [ err e ↦ err e | ok b ↦ ok (some b) ]

-- What a `Get` with a default makes of that.
unfoldable pub or_default {ℓ} : {A : Type ℓ} → A → Result (Option A) → Result A
or_default a (err e) = err e
or_default a (ok none) = ok a
or_default a (ok (some b)) = ok b

abbrev pub read_variable : VariableImpl → ℕ → Result (Option Opaque) × VariableImpl
read_variable v draw =
    let (r, d) = get_variable v.sample draw v.distrib in (r, record v { distrib = d })

unfoldable pub try_get_int : ℕ → VariableImpl → Result (Option ℤ) × VariableImpl
try_get_int draw v = let (r, v') = read_variable v draw in (try_as as_int r, v')

unfoldable pub get_int : ℤ → ℕ → VariableImpl → Result ℤ × VariableImpl
get_int default_value draw v = let (r, v') = try_get_int draw v in (or_default default_value r, v')

unfoldable pub try_get_string : ℕ → VariableImpl → Result (Option Bytes) × VariableImpl
try_get_string draw v = let (r, v') = read_variable v draw in (try_as as_string r, v')

unfoldable pub get_string : Bytes → ℕ → VariableImpl → Result Bytes × VariableImpl
get_string default_value draw v =
    let (r, v') = try_get_string draw v in (or_default default_value r, v')

-- `to_float` is the conversion of an int to a float64.
module _ (to_float : ℤ → Float64) where
  -- The type switch of a float variable: a value of another type is no value.
  unfoldable pub as_float : Opaque → Option Float64
  as_float (int i) = some (to_float i)
  as_float (float f) = some f
  as_float (text s) = none
  as_float other = none

  unfoldable pub try_as_float : Result (Option Opaque) → Result (Option Float64)
  try_as_float (err e) = err e
  try_as_float (ok none) = ok none
  try_as_float (ok (some a)) = ok (as_float a)

  unfoldable pub try_get_float : ℕ → VariableImpl → Result (Option Float64) × VariableImpl
  try_get_float draw v = let (r, v') = read_variable v draw in (try_as_float r, v')

  unfoldable pub get_float : Float64 → ℕ → VariableImpl → Result Float64 × VariableImpl
  get_float default_value draw v =
      let (r, v') = try_get_float draw v in (or_default default_value r, v')

  -- `TryGetFloat` of an integer variable.
  unfoldable pub try_get_int_as_float : ℕ → VariableImpl → Result (Option Float64) × VariableImpl
  try_get_int_as_float draw v =
      let (r, v') = try_get_int draw v in (try_as (λ i. ok (to_float i)) r, v')

-- A 64-bit int, from an integer.
unfoldable pub to_int : ℤ → ℤ
to_int i = let n = wrap (2 ^ 64) i in if ltb n (2 ^ 63) then pos n else negsuc (2 ^ 64 - 1 - n)

-- The sum of an integer and a number.
unfoldable pub plus : ℤ → ℕ → ℤ
plus (pos n) k = pos (n + k)
plus (negsuc n) k = if ltb n k then pos (k - 1 - n) else negsuc (n - k)

-- `getInt` of the integer sample from `offset`.
unfoldable pub int_sample : ℤ → ℕ → Result Opaque
int_sample offset index = ok (int (to_int (plus offset index)))

unfoldable pub new_int_immediate : Bytes → ℤ → VariableImpl
unfolding new_uniform
new_int_immediate domain value = record {
  domain = domain;
  sample = int_sample value;
  distrib = new_uniform 1 regular;
}
