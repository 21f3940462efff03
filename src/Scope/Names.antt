-- ===== src/Scope/Names.antt =====
-- The names that `parse` of core/scope.go defines.
use diablo.Prelude.{
  ◌≡◌, refl, Bool, true, false, none, List, [], ◌∷◌, Bytes, bytes_key, bytes_eq, Map, lookup,
  insert, lookup-insert, All, arith, Option-cases, inl, inr,
}
use diablo.Wire.Errors.{Result, ok, Result-cases}
use diablo.Scope.{BasicScopeEntry, Scope, add_entry, parse_scope}

-- None of the names is the name.
abbrev pub HasNot : Bytes → List Bytes → Type 0
HasNot k names = All (λ j. bytes_eq k j ≡ false) names

abbrev pub AreDistinct : List Bytes → Type 0
AreDistinct [] = Unit
AreDistinct (k ∷ ks) = HasNot k ks × AreDistinct ks

abbrev AreNew : Map Bytes Bool → List Bytes → Type 0
AreNew seen names = All (λ k. lookup k seen ≡ none) names

AreNew-insert :
    (k : Bytes) (seen : Map Bytes Bool) (names : List Bytes)
    → AreNew (insert k true seen) names
    → AreNew seen names × HasNot k names
AreNew-insert k seen [] h = (tt, tt)
AreNew-insert k seen (j ∷ names) h =
    ground (arith, lookup-insert k j true seen, AreNew-insert k seen names h.1)

insert-AreNew :
    (k : Bytes) (seen : Map Bytes Bool) (names : List Bytes)
    → AreNew seen names
    → HasNot k names
    → AreNew (insert k true seen) names
insert-AreNew k seen [] h other = tt
insert-AreNew k seen (j ∷ names) h other =
    ground (arith, lookup-insert k j true seen, insert-AreNew k seen names h.1 other.1)

module _ {Child : Type 0}
    (parse_variable : Child → Scope → Result (Bytes × BasicScopeEntry) × Scope) where
  -- The children declare variables with these names, one after the other: each is read in the scope that
  -- those before it left, with their variables.
  pub data Declares : List Child → Scope → List Bytes → Scope → Type 0 where
    nothing : {scope : Scope} → Declares [] scope [] scope
    variable :
        {c : Child} {cs : List Child} {scope result : Scope} {name : Bytes} {names : List Bytes}
        {entry : BasicScopeEntry}
        → (parse_variable c scope).0 ≡ ok (name, entry)
        → Declares cs (add_entry name entry (parse_variable c scope).1) names result
        → Declares (c ∷ cs) scope (name ∷ names) result

  declares :
      (cs : List Child) (seen : Map Bytes Bool) (scope result : Scope)
      → parse_scope parse_variable cs seen scope ≡ ok result
      → (names : List Bytes) × Declares cs scope names result
        × AreNew seen names
        × AreDistinct names
  unfolding parse_scope
  declares [] seen scope result h = let same : scope ≡ result = cc in ([], rw same nothing, tt, tt)
  declares (c ∷ cs) seen scope result h = elim (Result-cases (parse_variable c scope).0) [
    | inr (e, failed) ↦ absurd (cc (rw (failed, parse_scope) at h))
    | inl (p, read) ↦ elim (Option-cases (lookup p.0 seen)) [
      | inr (b, twice) ↦ absurd (cc (rw (read, twice, parse_scope) at h))
      | inl fresh ↦
          let (names, d, new, distinct) =
            declares cs (insert p.0 true seen) (add_entry p.0 p.1 (parse_variable c scope).1) result
              (rw (read, fresh, parse_scope) at h) in
          let (new', other) = AreNew-insert p.0 seen names new in
          (p.0 ∷ names, variable read d, (fresh, new'), (other, distinct))
    ]
  ]

  complete :
      {cs : List Child} {scope result : Scope} {names : List Bytes}
      → Declares cs scope names result
      → (seen : Map Bytes Bool) → AreNew seen names
      → AreDistinct names
      → parse_scope parse_variable cs seen scope ≡ ok result
  unfolding parse_scope
  complete nothing seen new distinct = refl
  complete (variable {name = name} {names = names} read d) seen new distinct =
      rw (parse_scope, read, new.0)
        (complete d (insert name true seen) (insert-AreNew name seen names new.1 distinct.0)
          distinct.1)

  AreNew-empty : (names : List Bytes) → AreNew [] names
  unfolding lookup
  AreNew-empty [] = tt
  AreNew-empty (k ∷ names) = (refl, AreNew-empty names)

  -- `parse` succeeds exactly when every child declares a variable, each in the scope that those before it
  -- left, and no two have one name; the result is the scope that the last one leaves.
  pub parse_scope-Declares :
      (cs : List Child) (scope result : Scope)
      → (parse_scope parse_variable cs [] scope ≡ ok result
          → (names : List Bytes) × Declares cs scope names result × AreDistinct names)
        × ((names : List Bytes)
            → Declares cs scope names result
            → AreDistinct names
            → parse_scope parse_variable cs [] scope ≡ ok result)
  parse_scope-Declares cs scope result = (
    λ h. let (names, d, new, distinct) = declares cs [] scope result h in (names, d, distinct),
    λ names d distinct. complete d [] (AreNew-empty names) distinct,
  )
