-- ===== src/Wire/Takes.antt =====
-- What every reader of the program does on every stream: it never takes more than there is, and its
-- errors are those of the stream or of the format.
use diablo.Prelude.{
  ℕ, zero, suc, ◌+◌, ◌-◌, ◌≤◌, ◌≡◌, ◌≢◌, Bytes, length, drop, leb, Bool, true, false, arith,
  if◌then◌else◌, [], ◌∷◌, ◌==◌, Bool-cases, inl, inr, leb→le,
}
use diablo.Wire.Errors.{Error, Result, ok, err, out_of_fuel, and_then}
use diablo.Wire.Source.{Parser, ◌>>=◌, pure, fail, lift, read_full, read_byte, read_short_string}
use diablo.Wire.Little.{read_little}

-- At least `k` bytes are taken on success; a failure is not the lack of fuel.
abbrev pub Leaves {ℓ} : {A : Type ℓ} → ℕ → Bytes → Result (A × Bytes) → Type 0
Leaves k src (ok (a, rest)) = length rest + k ≤ length src
Leaves k src (err e) = e ≢ out_of_fuel

pub record Takes {ℓ} {A : Type ℓ} (k : ℕ) (p : Parser A) : Type ℓ where
  pub at : (src : Bytes) → Leaves k src (p src)

pub length-drop : (n : ℕ) (s : Bytes) → length (drop n s) ≡ length s - n
length-drop zero s = omega arith
length-drop (suc n) [] = omega arith
length-drop (suc n) (x ∷ s) = omega (arith, length-drop n s)

pub Takes-pure {ℓ} : {A : Type ℓ} (a : A) → Takes 0 (pure a)
unfolding pure
Takes-pure a = record { at = λ src. omega arith }

pub Takes-fail {ℓ} : {A : Type ℓ} (e : Error) → e ≢ out_of_fuel → Takes {A = A} 0 (fail e)
unfolding fail
Takes-fail e h = record { at = λ src. h }

pub Takes-read_full : (n : ℕ) → Takes n (read_full n)
unfolding read_full
Takes-read_full n = record {
  at = λ src. elim (Bool-cases (leb n (length src))) [
    | inl enough ↦ rw enough (omega (arith, length-drop n src, leb→le n (length src) enough))
    | inr short ↦ rw short (elim (Bool-cases (length src == 0)) [
      | inl empty ↦ rw empty (λ e. cc)
      | inr partial ↦ rw partial (λ e. cc)
    ])
  ];
}

Leaves-more {ℓ} :
    {A : Type ℓ} (k : ℕ) (src rest : Bytes) (r : Result (A × Bytes))
    → length rest + k ≤ length src
    → Leaves 0 rest r
    → Leaves k src r
Leaves-more k src rest (ok (a, rest')) h h' = omega arith
Leaves-more k src rest (err e) h h' = h'

Leaves-then {ℓ κ} :
    {A : Type ℓ} {B : Type κ} (k : ℕ) (src : Bytes) (r : Result (A × Bytes)) (f : A → Parser B)
    → Leaves k src r
    → ((a : A) → Takes 0 (f a))
    → Leaves k src (and_then r (λ p. f p.0 p.1))
Leaves-then k src (ok (a, rest)) f h hf = Leaves-more k src rest (f a rest) h ((hf a).at rest)
Leaves-then k src (err e) f h hf = h

pub Takes-bind {ℓ κ} :
    {A : Type ℓ} {B : Type κ} (k : ℕ) {p : Parser A} (f : A → Parser B)
    → Takes k p
    → ((a : A) → Takes 0 (f a))
    → Takes k (p >>= f)
unfolding ◌>>=◌
Takes-bind k {p = p} f hp hf = record { at = λ src. Leaves-then k src (p src) f (hp.at src) hf }

-- Less is taken too.
Leaves-any {ℓ} :
    {A : Type ℓ} (k : ℕ) (src : Bytes) (r : Result (A × Bytes)) → Leaves k src r → Leaves 0 src r
Leaves-any k src (ok (a, rest)) h = omega arith
Leaves-any k src (err e) h = h

pub Takes-any {ℓ} : {A : Type ℓ} (k : ℕ) {p : Parser A} → Takes k p → Takes 0 p
Takes-any k {p = p} h = record { at = λ src. Leaves-any k src (p src) (h.at src) }

pub Takes-byte : Takes 1 read_byte
unfolding read_byte
Takes-byte = Takes-bind 1 _ (Takes-read_full 1) (λ buf. Takes-pure _)

pub Takes-little : (k : ℕ) → Takes 0 (read_little k)
unfolding read_little
Takes-little k = Takes-bind 0 _ (Takes-any k (Takes-read_full k)) (λ buf. Takes-pure _)

pub Takes-full : (n : ℕ) → Takes 0 (read_full n)
Takes-full n = Takes-any n (Takes-read_full n)

pub Takes-some_byte : Takes 0 read_byte
Takes-some_byte = Takes-any 1 Takes-byte

pub Takes-short_string : Takes 0 read_short_string
unfolding read_short_string
Takes-short_string = Takes-bind 0 _ Takes-some_byte (λ n. Takes-full n)

ne_fuel_then {ℓ κ} :
    {A : Type ℓ} {B : Type κ} (k : ℕ) (src : Bytes) (r : Result (A × Bytes)) (f : A → Parser B)
    → Leaves k src r
    → ((a : A) (rest : Bytes) → length rest + k ≤ length src → f a rest ≢ err out_of_fuel)
    → and_then r (λ p. f p.0 p.1) ≢ err out_of_fuel
ne_fuel_then k src (ok (a, rest)) f h hf = hf a rest h
ne_fuel_then k src (err e) f h hf = λ q. ground (arith, h)

-- A reader that takes bytes, and then one that has fuel for what is left.
pub >>=-ne-fuel {ℓ κ} :
    {A : Type ℓ} {B : Type κ} (k : ℕ) (p : Parser A) (f : A → Parser B) (src : Bytes)
    → Takes k p
    → ((a : A) (rest : Bytes) → length rest + k ≤ length src → f a rest ≢ err out_of_fuel)
    → (p >>= f) src ≢ err out_of_fuel
unfolding ◌>>=◌
>>=-ne-fuel k p f src h hf = ne_fuel_then k src (p src) f (h.at src) hf

lifted {ℓ} :
    {A : Type ℓ} (r : Result A) (src : Bytes)
    → r ≢ err out_of_fuel
    → Leaves 0 src (and_then r (λ a. ok (a, src)))
lifted (ok a) src h = omega arith
lifted (err e) src h = λ q. ground (arith, h)

pub Takes-lift {ℓ} : {A : Type ℓ} (r : Result A) → r ≢ err out_of_fuel → Takes 0 (lift r)
unfolding lift
Takes-lift r h = record { at = λ src. lifted r src h }

pub Takes-if {ℓ} :
    {A : Type ℓ} (b : Bool) (p q : Parser A) → Takes 0 p → Takes 0 q → Takes 0 (if b then p else q)
Takes-if true p q hp hq = hp
Takes-if false p q hp hq = hq
