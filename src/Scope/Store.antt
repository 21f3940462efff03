-- ===== src/Scope/Store.antt =====
-- Reading a variable through an alias of core/benchmark.go changes that variable in its scope, and
-- nothing else.
use diablo.Prelude.{
  ℕ, ◌≡◌, refl, true, Option, none, some, [], ◌∷◌, Bytes, bytes_key, bytes_eq, bytes_eq_iff, lookup,
  lookup-insert, if◌then◌else◌, arith, Option-cases, inl, inr,
}
use diablo.Wire.Errors.{ok}
use diablo.Variable.{VariableImpl, read_variable}
use diablo.Scope.{
  BasicScopeEntry, Scope, get_entry, put_variable, alias_variable, alias_resource, read_alias,
  required, alias_get_resource,
}

-- The entry with its variable changed, of an entry that is there.
abbrev with_variable : VariableImpl → Option BasicScopeEntry → Option BasicScopeEntry
with_variable v none = none
with_variable v (some entry) = some (record entry { variable = v })

get_entry-put_variable :
    (name other : Bytes) (v : VariableImpl) (s : Scope)
    → get_entry other (put_variable name v s)
      ≡ (if bytes_eq name other then with_variable v (get_entry name s) else get_entry other s)
unfolding get_entry put_variable
get_entry-put_variable name other v [] = ground arith
get_entry-put_variable name other v (entries ∷ parent) = elim (Option-cases (lookup name entries)) [
  | inl missing ↦
      rw (missing, get_entry)
        (ground
          (arith, missing, get_entry-put_variable name other v parent, bytes_eq_iff name other))
  | inr (entry, there) ↦
      rw (there, get_entry, lookup-insert name other (record entry { variable = v }) entries)
        (ground (arith, there, bytes_eq_iff name other))
]

resource_found :
    (domain name : Bytes) (s : Scope) (entry : BasicScopeEntry)
    → get_entry name s ≡ some entry
    → entry.domain ≡ domain
    → alias_resource domain name s ≡ ok entry.variable
unfolding alias_resource alias_variable
resource_found domain name s entry there same =
    let accepted : bytes_eq entry.domain domain ≡ true =
      (bytes_eq_iff entry.domain domain).1 same in
    rw (there, alias_resource, alias_variable) (rw accepted refl)

-- When an alias names a variable of the domain asked for, `GetResource` returns what the variable's
-- next event is, or that it is exhausted; afterwards that name has the variable after the event, with
-- the same sample and domain, and every other name its entry as before.
pub get_entry-alias_get_resource :
    (draw : ℕ) (domain name : Bytes) (s : Scope) (entry : BasicScopeEntry)
    → get_entry name s ≡ some entry
    → entry.domain ≡ domain
    → ((alias_get_resource draw domain name s).0 ≡ required (read_variable entry.variable draw).0)
      × ((other : Bytes)
          → get_entry other (alias_get_resource draw domain name s).1 ≡ (
              if bytes_eq name other
              then some (record entry { variable = (read_variable entry.variable draw).1 })
              else get_entry other s))
unfolding alias_get_resource read_alias
get_entry-alias_get_resource draw domain name s entry there same =
    let found = resource_found domain name s entry there same in
    (
      rw (found, alias_get_resource, read_alias) refl,
      λ other.
          rw (found, alias_get_resource, read_alias)
            (rw there at
              (get_entry-put_variable name other (read_variable entry.variable draw).1 s)),
    )
