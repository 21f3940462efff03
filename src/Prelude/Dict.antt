-- ===== src/Prelude/Dict.antt =====
-- Go's `map[K]V` as an association list, over a key type with a Boolean equality. The order of the
-- list is the order in which `range` visits the entries.
use Prim.Native.Nat.{ℕ}
use mathlib.Core.Path.{◌≡◌, refl, sym, ◌∙◌}
use mathlib.Core.Logic.{◌↔◌}
use mathlib.Core.Bool.{Bool, true, false, ◌&&◌}
use mathlib.Core.List.{List, [], ◌∷◌, ◌++◌, append-nil, append_assoc}
use mathlib.Core.Option.{Option, none, some}
use native.Mathlib.Omega.{arith}
use diablo.Prelude.Tests.{◌==◌, if◌then◌else◌}
use diablo.Prelude.Int.{ℤ, eq_ℤ, eq_ℤ_iff}

pub record Key {ℓ} (K : Type ℓ) : Type ℓ where
  pub beq : K → K → Bool
  pub beq_iff : (a b : K) → (beq a b ≡ true) ↔ (a ≡ b)

-- A Go string is the sequence of its bytes.
abbrev pub Bytes : Type 0
Bytes = List ℕ

abbrev pub bytes_eq : Bytes → Bytes → Bool
bytes_eq [] [] = true
bytes_eq (a ∷ s) (b ∷ t) = a == b && bytes_eq s t
bytes_eq _ _ = false

pub bytes_eq_iff : (s t : Bytes) → (bytes_eq s t ≡ true) ↔ (s ≡ t)
bytes_eq_iff [] [] = ground arith
bytes_eq_iff [] (b ∷ t) = ground arith
bytes_eq_iff (a ∷ s) [] = ground arith
bytes_eq_iff (a ∷ s) (b ∷ t) = ground (arith, bytes_eq_iff s t)

instance abbrev pub bytes_key : Key Bytes
bytes_key = record { beq = bytes_eq; beq_iff = bytes_eq_iff }

instance abbrev pub int_key : Key ℤ
int_key = record { beq = eq_ℤ; beq_iff = eq_ℤ_iff }

abbrev pub Map {ℓ κ} : Type ℓ → Type κ → Type (ℓ ⊔ κ)
Map K V = List (K × V)

module _ {ℓ κ} {K : Type ℓ} {V : Type κ} ⦃e : Key K⦄ where
  -- `v, ok = m[k]`
  unfoldable pub lookup : K → Map K V → Option V
  lookup k [] = none
  lookup k ((j, v) ∷ m) = if e.beq j k then some v else lookup k m

  -- `m[k] = v`
  unfoldable pub insert : K → V → Map K V → Map K V
  insert k v [] = (k, v) ∷ []
  insert k v ((j, w) ∷ m) = if e.beq j k then (k, v) ∷ m else (j, w) ∷ insert k v m

  pub lookup-insert :
      (k j : K) (v : V) (m : Map K V)
      → lookup j (insert k v m) ≡ (if e.beq k j then some v else lookup j m)
  unfolding lookup insert
  lookup-insert k j v [] = refl
  lookup-insert k j v ((i, w) ∷ m) =
      ground (arith, e.beq_iff k j, e.beq_iff i k, e.beq_iff i j, lookup-insert k j v m)

  -- A key that is not there is added behind the entries.
  pub insert-new :
      (k : K) (v : V) (m : Map K V) → lookup k m ≡ none → insert k v m ≡ m ++ (k, v) ∷ []
  unfolding lookup insert
  insert-new k v [] h = refl
  insert-new k v ((j, w) ∷ m) h = ground (arith, insert-new k v m)

  -- No key stands twice.
  unfoldable pub DistinctKeys : Map K V → Type κ
  DistinctKeys [] = Unit
  DistinctKeys ((k, v) ∷ m) = (lookup k m ≡ none) × DistinctKeys m

  pub lookup-append :
      (k : K) (m l : Map K V)
      → lookup k (m ++ l) ≡ elim (lookup k m) [ none ↦ lookup k l | some v ↦ some v ]
  unfolding lookup
  lookup-append k [] l = refl
  lookup-append k ((j, w) ∷ m) l = ground (arith, lookup-append k m l)

  -- Every entry of the second list in turn, as the loop of a decoder does.
  unfoldable pub insert_all : Map K V → Map K V → Map K V
  insert_all m [] = m
  insert_all m ((k, v) ∷ l) = insert_all (insert k v m) l

  distinct_middle :
      (k : K) (v : V) (m l : Map K V) → DistinctKeys (m ++ (k, v) ∷ l) → lookup k m ≡ none
  unfolding DistinctKeys lookup
  distinct_middle k v [] l h = refl
  distinct_middle k v ((j, w) ∷ m) l h = ground (
    arith,
    distinct_middle k v m l h.1,
    lookup-append j m ((k, v) ∷ l),
    e.beq_iff j k,
    e.beq_iff k j,
  )

  -- Inserting entries with distinct keys one after the other keeps their order.
  pub insert_all-distinct : (m l : Map K V) → DistinctKeys (m ++ l) → insert_all m l ≡ m ++ l
  unfolding insert_all
  insert_all-distinct m [] h = sym (append-nil m)
  insert_all-distinct m ((k, v) ∷ l) h = rw (insert-new k v m (distinct_middle k v m l h)) (
      insert_all-distinct (m ++ (k, v) ∷ []) l (rw (append_assoc m ((k, v) ∷ []) l) h)
      ∙ append_assoc m ((k, v) ∷ []) l)
