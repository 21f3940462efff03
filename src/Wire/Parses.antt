-- ===== src/Wire/Parses.antt =====
-- Rules for reading back what was written: `Parses p bs a` says that `p` takes exactly `bs` off any
-- stream that begins with it, and returns `a`.
use diablo.Prelude.{
  ℕ, ◌≤◌, ◌<◌, ◌^◌, ◌≡◌, refl, [], ◌++◌, Bytes, length, take-append, drop-append, length-append,
  arith,
}
use diablo.Wire.Errors.{Result, ok, err, and_then}
use diablo.Wire.Source.{Parser, ◌>>=◌, pure, lift, read_full, read_byte, read_short_string}
use diablo.Wire.Little.{byte, little, read_little, length-little, from_little-little}
use mathlib.Core.List.{append_assoc, append-nil}

pub record Parses {ℓ} {A : Type ℓ} (p : Parser A) (bs : Bytes) (a : A) : Type ℓ where
  pub run : (rest : Bytes) → p (bs ++ rest) ≡ ok (a, rest)

pub Parses-pure {ℓ} : {A : Type ℓ} (a : A) → Parses (pure a) [] a
unfolding pure
Parses-pure a = record { run = λ rest. refl }

pub Parses-bind {ℓ κ} :
    {A : Type ℓ} {B : Type κ} {p : Parser A} (f : A → Parser B) {bs cs : Bytes} {a : A} {b : B}
    → Parses p bs a
    → Parses (f a) cs b
    → Parses (p >>= f) (bs ++ cs) b
unfolding ◌>>=◌
Parses-bind f {bs = bs} {cs = cs} hp hf = record {
  run = λ rest. rw (append_assoc bs cs rest, hp.run (cs ++ rest)) (hf.run rest);
}

-- A last step that reads nothing.
pub Parses-bind_end {ℓ κ} :
    {A : Type ℓ} {B : Type κ} {p : Parser A} (f : A → Parser B) {bs : Bytes} {a : A} {b : B}
    → Parses p bs a
    → Parses (f a) [] b
    → Parses (p >>= f) bs b
Parses-bind_end f {bs = bs} hp hf = rw (append-nil bs) at (Parses-bind f hp hf)

-- A last step that only computes.
pub Parses-bind_pure {ℓ κ} :
    {A : Type ℓ} {B : Type κ} {p : Parser A} (g : A → B) {bs : Bytes} {a : A}
    → Parses p bs a
    → Parses (p >>= (λ x. pure (g x))) bs (g a)
unfolding ◌>>=◌ pure
Parses-bind_pure g h = record { run = λ rest. rw (h.run rest) }

pub Parses-lift {ℓ} : {A : Type ℓ} (r : Result A) (a : A) → r ≡ ok a → Parses (lift r) [] a
unfolding lift
Parses-lift r a e = record { run = λ rest. rw e }

pub Parses-read_full : (n : ℕ) (s : Bytes) → length s ≡ n → Parses (read_full n) s s
unfolding read_full
Parses-read_full n s h = record {
  run = λ rest.
      rw (← h) (ground (arith, length-append s rest, take-append s rest, drop-append s rest));
}

pub Parses-byte : (n : ℕ) → n < 256 → Parses read_byte (byte n) n
unfolding read_byte byte ◌>>=◌ pure read_full
Parses-byte n h = record { run = λ rest. ground (arith) }

pub Parses-little : (k v : ℕ) → v < 256 ^ k → Parses (read_little k) (little k v) v
unfolding read_little ◌>>=◌ pure
Parses-little k v h = record {
  run = λ rest.
      rw ((Parses-read_full k (little k v) (length-little k v)).run rest, from_little-little k v h);
}

pub Parses-short_string :
    (s : Bytes) → length s ≤ 255 → Parses read_short_string (byte (length s) ++ s) s
unfolding read_short_string
Parses-short_string s h = Parses-bind _ (Parses-byte _ (omega arith)) (Parses-read_full _ s refl)

-- A step on a stream that begins with its bytes, and a step that reads nothing.
pub >>=-run {ℓ κ} :
    {A : Type ℓ} {B : Type κ} {p : Parser A} (f : A → Parser B) {bs : Bytes} {a : A} (rest : Bytes)
    → Parses p bs a
    → (p >>= f) (bs ++ rest) ≡ f a rest
unfolding ◌>>=◌
>>=-run f rest h = rw (h.run rest)

pub >>=-lift {ℓ κ} :
    {A : Type ℓ} {B : Type κ} (r : Result A) (f : A → Parser B) (src : Bytes)
    → (lift r >>= f) src ≡ and_then r (λ a. f a src)
unfolding ◌>>=◌ lift
>>=-lift (ok a) f src = refl
>>=-lift (err e) f src = refl

pub and_then_assoc {ℓ κ μ} :
    {A : Type ℓ} {B : Type κ} {C : Type μ} (r : Result A) (f : A → Result B) (g : B → Result C)
    → and_then (and_then r f) g ≡ and_then r (λ a. and_then (f a) g)
and_then_assoc (ok a) f g = refl
and_then_assoc (err e) f g = refl

pub and_then-cong {ℓ κ} :
    {A : Type ℓ} {B : Type κ} (r : Result A) (f g : A → Result B)
    → ((a : A) → f a ≡ g a)
    → and_then r f ≡ and_then r g
and_then-cong (ok a) f g h = h a
and_then-cong (err e) f g h = refl
