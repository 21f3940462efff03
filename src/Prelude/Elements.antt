-- ===== src/Prelude/Elements.antt =====
-- A predicate of all elements of a list, where lists are appended, read and written.
use Prim.Native.Nat.{ℕ, zero, suc}
use mathlib.Core.Path.{◌≡◌, subst}
use mathlib.Core.List.{List, [], ◌∷◌, ◌++◌}
use mathlib.Core.Option.{some}
use diablo.Prelude.Lists.{All, get_elem?, set}

module _ {ℓ κ} {A : Type ℓ} (P : A → Type κ) where
  pub All-append_left : (xs ys : List A) → All P (xs ++ ys) → All P xs
  All-append_left [] ys h = tt
  All-append_left (x ∷ xs) ys h = (h.0, All-append_left xs ys h.1)

  pub All-append_right : (xs ys : List A) → All P (xs ++ ys) → All P ys
  All-append_right [] ys h = h
  All-append_right (x ∷ xs) ys h = All-append_right xs ys h.1

  pub All-get : (xs : List A) (i : ℕ) (x : A) → All P xs → get_elem? xs i ≡ some x → P x
  All-get [] i x h e = cc
  All-get (y ∷ ys) zero x h e = subst P (cc e) h.0
  All-get (y ∷ ys) (suc i) x h e = All-get ys i x h.1 e

  pub All-set : (xs : List A) (i : ℕ) (x : A) → All P xs → P x → All P (set xs i x)
  All-set [] i x h p = tt
  All-set (y ∷ ys) zero x h p = (p, h.1)
  All-set (y ∷ ys) (suc i) x h p = (h.0, All-set ys i x h.1 p)

  -- What holds after an element was replaced holds of the new element, and before it if it holds of the
  -- old element.
  pub set-All :
      (xs : List A) (i : ℕ) (old new : A)
      → get_elem? xs i ≡ some old
      → All P (set xs i new)
      → (P new → P old)
      → P new × All P xs
  set-All [] i old new e h f = cc
  set-All (y ∷ ys) zero old new e h f =
      let same : old ≡ y = cc e in (h.0, (subst P same (f h.0), h.1))
  set-All (y ∷ ys) (suc i) old new e h f =
      let (p, more) = set-All ys i old new e h.1 f in (p, (h.0, more))
