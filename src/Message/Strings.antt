-- ===== src/Message/Strings.antt =====
-- The loops of core/encoding.go over lists of short strings, and what it means that an `encode` and
-- a `decode` fit together.
use diablo.Prelude.{
  ℕ, zero, suc, ◌≤◌, ◌<◌, ◌≡◌, refl, Option, none, some, List, [], ◌∷◌, ◌++◌, Bytes, length, ltb,
  if◌then◌else◌, All, arith, ◌⊎◌, ◌↔◌, inl, inr, Option-cases,
}
use diablo.Wire.Errors.{Error, write_failed}
use diablo.Wire.Sink.{Sink, Writer, guarded, frame, sent, cut, emit-frame, emit-short}
use diablo.Wire.Source.{Parser, ◌>>=◌, pure, read_short_string}
use diablo.Wire.Little.{byte}
use diablo.Wire.Parses.{Parses, Parses-bind, Parses-bind_pure, Parses-pure, Parses-short_string}
use mathlib.Core.List.{append_assoc}

-- The loops that write and read the strings of a list, a length byte in front of each.
unfoldable pub string_chunks : List Bytes → List Bytes
string_chunks [] = []
string_chunks (s ∷ ss) = byte (length s) ∷ s ∷ string_chunks ss

unfoldable pub read_strings : ℕ → Parser (List Bytes)
read_strings zero = pure []
read_strings (suc n) = do s ← read_short_string; ss ← read_strings n; pure (s ∷ ss)

-- The loop that looks for a string of more than 255 bytes.
unfoldable pub first_long : (Bytes → Error) → List Bytes → Option Error
first_long e [] = none
first_long e (s ∷ ss) = if ltb 255 (length s) then some (e s) else first_long e ss

abbrev pub IsShort : Bytes → Type 0
IsShort s = length s ≤ 255

pub first_long_iff :
    (e : Bytes → Error) (ss : List Bytes) → (first_long e ss ≡ none) ↔ All IsShort ss
unfolding first_long
first_long_iff e [] = (λ _. tt, λ _. refl)
first_long_iff e (s ∷ ss) = ground (arith, first_long_iff e ss)

pub Parses-bind_string {ℓ} :
    {A : Type ℓ} (s : Bytes) (f : Bytes → Parser A) {cs : Bytes} {a : A}
    → IsShort s
    → Parses (f s) cs a
    → Parses (read_short_string >>= f) (byte (length s) ++ (s ++ cs)) a
Parses-bind_string s f {cs} h hf =
    rw (append_assoc (byte (length s)) s cs) at (Parses-bind f (Parses-short_string s h) hf)

pub Parses-strings :
    (ss : List Bytes)
    → All IsShort ss
    → Parses (read_strings (length ss)) (frame (string_chunks ss)) ss
unfolding string_chunks read_strings
Parses-strings [] h = Parses-pure []
Parses-strings (s ∷ ss) h =
    Parses-bind_string s _ h.0 (Parses-bind_pure (λ l. s ∷ l) (Parses-strings ss h.1))

-- On every stream, `w` writes some `bytes`, or the part of them that there is room for, and `p`
-- reads exactly these bytes back as `a`.
pub record Transmits {ℓ} {A : Type ℓ} (w : Writer) (p : Parser A) (a : A) : Type ℓ where
  pub bytes : Bytes
  pub writes : (s : Sink) → length bytes ≤ s.room → w s ≡ (none, sent bytes s)
  pub fails : (s : Sink) → s.room < length bytes → w s ≡ (some write_failed, cut bytes s)
  pub reads : Parses p bytes a

-- `w` fails with `e` before it writes anything.
abbrev pub Refuses : Writer → Error → Type 0
Refuses w e = (s : Sink) → w s ≡ (some e, s)

pub guarded-writes :
    (check : Option Error) (ps : List Bytes) (s : Sink)
    → check ≡ none
    → length (frame ps) ≤ s.room
    → guarded check ps s ≡ (none, sent (frame ps) s)
unfolding guarded
guarded-writes check ps s e fits = rw e (emit-frame ps s fits)

-- An `encode` with its guards: it transmits the message exactly when the message fits the format,
-- and refuses every other one before it writes.
abbrev pub Decides {ℓ κ} : {A : Type ℓ} → Type κ → Writer → Parser A → A → Type (ℓ ⊔ κ)
Decides F w p a = (F × Transmits w p a) ⊎ ((¬ F) × ((e : Error) × Refuses w e))

module _ {ℓ} {A : Type ℓ} (check : Option Error) (ps : List Bytes) {p : Parser A} {a : A} where
  pub guarded-Transmits : check ≡ none → Parses p (frame ps) a → Transmits (guarded check ps) p a
  unfolding guarded
  guarded-Transmits e h = record {
    bytes = frame ps;
    writes = λ s fits. rw e (emit-frame ps s fits);
    fails = λ s short. rw e (emit-short ps s short);
    reads = h;
  }

  pub guarded-Decides {κ} :
      {F : Type κ}
      → (check ≡ none) ↔ F
      → (F → Parses p (frame ps) a)
      → Decides F (guarded check ps) p a
  unfolding guarded
  guarded-Decides iff reads = elim (Option-cases check) [
    | inl free ↦ inl (iff.0 free, guarded-Transmits free (reads (iff.0 free)))
    | inr (e, found) ↦ inr (λ f. cc (iff.1 f, found), (e, λ s. rw found))
  ]
