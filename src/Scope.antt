-- ===== src/Scope.antt =====
-- core/scope.go: the scopes of a benchmark, and the variables that the aliases of core/benchmark.go
-- read from them. A scope is its entries in front of those of its parents; the variables are changed
-- in place when they are read, so reading returns the scope after it.
pub mod Store
pub mod Names
use diablo.Prelude.{
  ℕ, Bool, true, Option, none, some, List, [], ◌∷◌, Bytes, bytes_key, bytes_eq, ℤ, Map, lookup,
  insert, if◌then◌else◌,
}
use diablo.Float.{Float64}
use diablo.Wire.Errors.{
  Error, Result, ok, err, and_then, variable_redefined, unknown_variable, cannot_convert,
  variable_exhausted,
}
use diablo.Variable.{
  Opaque, VariableImpl, read_variable, try_get_int, try_get_string, try_get_float,
}

pub record BasicScopeEntry : Type 0 where
  pub variable : VariableImpl
  pub domain : Bytes

abbrev pub Scope : Type 0
Scope = List (Map Bytes BasicScopeEntry)

unfoldable pub get_entry : Bytes → Scope → Option BasicScopeEntry
get_entry name [] = none
get_entry name (entries ∷ parent) = elim (lookup name entries) [
  | none ↦ get_entry name parent
  | some entry ↦ some entry
]

-- The variable of the name, changed in place where it stands.
unfoldable pub put_variable : Bytes → VariableImpl → Scope → Scope
put_variable name v [] = []
put_variable name v (entries ∷ parent) = elim (lookup name entries) [
  | none ↦ entries ∷ put_variable name v parent
  | some entry ↦ insert name (record entry { variable = v }) entries ∷ parent
]

-- `add` of the innermost scope.
unfoldable pub add_entry : Bytes → BasicScopeEntry → Scope → Scope
add_entry name entry [] = []
add_entry name entry (entries ∷ parent) = insert name entry entries ∷ parent

-- `parse`, of a scope that was put in front of its parents: `parse_variable` reads a child in the scope
-- so far, and may read variables there. `seen` holds the names so far.
module _ {Child : Type 0}
    (parse_variable : Child → Scope → Result (Bytes × BasicScopeEntry) × Scope) where
  unfoldable pub parse_scope : List Child → Map Bytes Bool → Scope → Result Scope
  unfolding add_entry
  parse_scope [] seen scope = ok scope
  parse_scope (c ∷ cs) seen scope =
      let (r, scope') = parse_variable c scope in
      elim r [
        | err e ↦ err e
        | ok (name, entry) ↦ elim (lookup name seen) [
          | some b ↦ err (variable_redefined name)
          | none ↦ parse_scope cs (insert name true seen) (add_entry name entry scope')
        ]
      ]

-- The variable that an alias names, if its domain is one of those asked for.
unfoldable pub alias_variable : (Bytes → Bool) → Bytes → Scope → Result VariableImpl
alias_variable accepts name scope = elim (get_entry name scope) [
  | none ↦ err (unknown_variable name)
  | some entry ↦
      if accepts entry.domain then ok entry.variable else err (cannot_convert entry.domain)
]

-- The domains "integer", "float" and "string"
abbrev pub integer_domain : Bytes
integer_domain = 105 ∷ 110 ∷ 116 ∷ 101 ∷ 103 ∷ 101 ∷ 114 ∷ []

abbrev pub float_domain : Bytes
float_domain = 102 ∷ 108 ∷ 111 ∷ 97 ∷ 116 ∷ []

abbrev pub string_domain : Bytes
string_domain = 115 ∷ 116 ∷ 114 ∷ 105 ∷ 110 ∷ 103 ∷ []

-- `Resource`, `Int`, `Float` and `String` of an alias.
unfoldable pub alias_resource : Bytes → Bytes → Scope → Result VariableImpl
alias_resource domain name scope = alias_variable (λ d. bytes_eq d domain) name scope

unfoldable pub alias_int : Bytes → Scope → Result VariableImpl
alias_int name scope = alias_variable (λ d. bytes_eq d integer_domain) name scope

unfoldable pub alias_float : Bytes → Scope → Result VariableImpl
alias_float name scope =
    alias_variable (λ d. if bytes_eq d float_domain then true else bytes_eq d integer_domain) name
      scope

unfoldable pub alias_string : Bytes → Scope → Result VariableImpl
alias_string name scope = alias_variable (λ d. bytes_eq d string_domain) name scope

-- A variable that has no more value is exhausted.
unfoldable pub required {ℓ} : {A : Type ℓ} → Result (Option A) → Result A
required (err e) = err e
required (ok none) = err variable_exhausted
required (ok (some a)) = ok a

-- Reading the variable that was found, and keeping it in its place.
unfoldable pub read_alias {ℓ} :
    {A : Type ℓ}
    → (VariableImpl → Result (Option A) × VariableImpl)
    → Bytes
    → Result VariableImpl
    → Scope
    → Result A × Scope
read_alias read name (err e) scope = (err e, scope)
read_alias read name (ok v) scope = let (r, v') = read v in (required r, put_variable name v' scope)

-- `GetResource`, `GetInt`, `GetString` and `GetFloat` of an alias.
unfoldable pub alias_get_resource : ℕ → Bytes → Bytes → Scope → Result Opaque × Scope
alias_get_resource draw domain name scope =
    read_alias (λ v. read_variable v draw) name (alias_resource domain name scope) scope

unfoldable pub alias_get_int : ℕ → Bytes → Scope → Result ℤ × Scope
alias_get_int draw name scope = read_alias (try_get_int draw) name (alias_int name scope) scope

unfoldable pub alias_get_string : ℕ → Bytes → Scope → Result Bytes × Scope
alias_get_string draw name scope =
    read_alias (try_get_string draw) name (alias_string name scope) scope

unfoldable pub alias_get_float : (ℤ → Float64) → ℕ → Bytes → Scope → Result Float64 × Scope
alias_get_float to_float draw name scope =
    read_alias (try_get_float to_float draw) name (alias_float name scope) scope
