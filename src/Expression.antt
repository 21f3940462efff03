-- ===== src/Expression.antt =====
-- core/benchmark.go: the expressions that a benchmark file is read into, and the methods through which
-- the program reads them. An expression keeps no reference to its context: the scope is an argument, and
-- the name of the file, which is that of the whole tree, is left out of the messages. The flags `texpl`
-- and `nexpl` are written and never read.
pub mod Parse
pub mod Fields
pub mod Readable
pub mod Follow
use diablo.Prelude.{
  ℕ, zero, suc, Bool, true, Option, none, some, List, [], ◌∷◌, Bytes, bytes_key, ℤ, pos, Map,
  lookup, if◌then◌else◌,
}
use diablo.Float.{Float64}
use diablo.Wire.Errors.{
  Error, Result, ok, err, Position, must_be, missing_field, no_type, no_name, index_out_of_range,
  a_variable_name, a_mapping, a_mapping_field, a_sequence, a_scope, a_resource, an_int, a_float,
  a_string,
}
use diablo.Variable.{Opaque, int, float, text, other}
use diablo.Scope.{
  BasicScopeEntry, Scope, parse_scope, alias_get_resource, alias_get_int, alias_get_float,
  alias_get_string,
}

-- What the program reads of a node of the YAML library: three bits of its style, its texts, where it
-- stands, and what `Decode` makes of it.
pub record Mark : Type 0 where
  pub tagged : Bool
  pub double_quoted : Bool
  pub single_quoted : Bool
  pub tag : Bytes
  pub anchor : Bytes
  pub content : Bytes
  pub place : Position
  pub decoded : Result Opaque

mutual
  pub data Expression : Type 0 where
    failed : Position → Error → Expression
    field : Mark → Expression → Expression → Expression
    mapping : Mark → Map Bytes ℕ → Expressions → Expression
    sequence : Mark → Expressions → Expression
    scalar : Mark → Expression
    alias : Mark → Expression

  pub data Expressions : Type 0 where
    end : Expressions
    item : Expression → Expressions → Expressions

unfoldable pub get_item : Expressions → ℕ → Option Expression
get_item end i = none
get_item (item e es) zero = some e
get_item (item e es) (suc i) = get_item es i

unfoldable pub items : Expressions → List Expression
items end = []
items (item e es) = e ∷ items es

unfoldable pub position : Expression → Position
position (failed p e) = p
position (field m k v) = m.place
position (mapping m index es) = m.place
position (sequence m es) = m.place
position (scalar m) = m.place
position (alias m) = m.place

-- What a method answers that the kind of the expression does not have.
unfoldable pub refuse {ℓ} : {A : Type ℓ} → (Position → Error) → Expression → Result A
unfolding position
refuse e (failed p e') = err e'
refuse e x = err (e (position x))

unfoldable pub key : Expression → Expression
unfolding position
key (failed p e) = failed p e
key (field m k v) = k
key x = failed (position x) (must_be a_mapping_field (position x))

unfoldable pub value : Expression → Expression
unfolding position
value (failed p e) = failed p e
value (field m k v) = v
value x = failed (position x) (must_be a_mapping_field (position x))

unfoldable pub find_field : Position → Bytes → Map Bytes ℕ → Expressions → Result Expression
find_field p name index es = elim (lookup name index) [
  | none ↦ err (missing_field name p)
  | some i ↦ elim (get_item es i) [
    | none ↦ err (index_out_of_range (pos i))
    | some e ↦ ok (value e)
  ]
]

unfoldable pub try_field : Bytes → Expression → Result Expression
unfolding refuse
try_field name (mapping m index es) = find_field m.place name index es
try_field name x = refuse (must_be a_mapping) x

-- An expression, or one that fails with the error.
unfoldable pub or_failed : Position → Result Expression → Expression
or_failed p (ok e) = e
or_failed p (err e) = failed p e

-- `Field`
unfoldable pub field_of : Bytes → Expression → Expression
unfolding position try_field
field_of name (failed p e) = failed p e
field_of name x = or_failed (position x) (try_field name x)

unfoldable pub try_map : Expression → Result (List Expression)
unfolding refuse
try_map (mapping m index es) = ok (items es)
try_map x = refuse (must_be a_mapping) x

unfoldable pub try_slice : Expression → Result (List Expression)
unfolding refuse
try_slice (sequence m es) = ok (items es)
try_slice x = refuse (must_be a_sequence) x

-- The list, or a list of one expression that fails with the error.
unfoldable pub list_or_failed : Position → Result (List Expression) → List Expression
list_or_failed p (ok es) = es
list_or_failed p (err e) = failed p e ∷ []

-- `Map` and `Slice`
unfoldable pub map_of : Expression → List Expression
unfolding position try_map
map_of x = list_or_failed (position x) (try_map x)

unfoldable pub slice : Expression → List Expression
unfolding position try_slice
slice x = list_or_failed (position x) (try_slice x)

-- `Tag[1:]` and `Anchor`
unfoldable pub type_of_mark : Mark → Result Bytes
type_of_mark m =
    if m.tagged
    then elim m.tag [ [] ↦ err (index_out_of_range (pos 1)) | c ∷ cs ↦ ok cs ]
    else err (no_type m.place)

unfoldable pub name_of_mark : Mark → Result Bytes
name_of_mark m = elim m.anchor [ [] ↦ err (no_name m.place) | c ∷ cs ↦ ok (c ∷ cs) ]

unfoldable pub etype : Expression → Result Bytes
etype (failed p e) = err e
etype (field m k v) = type_of_mark m
etype (mapping m index es) = type_of_mark m
etype (sequence m es) = type_of_mark m
etype (scalar m) = type_of_mark m
etype (alias m) = type_of_mark m

unfoldable pub name : Expression → Result Bytes
name (failed p e) = err e
name (field m k v) = name_of_mark m
name (mapping m index es) = name_of_mark m
name (sequence m es) = name_of_mark m
name (scalar m) = name_of_mark m
name (alias m) = name_of_mark m

unfoldable pub target : Expression → Result Bytes
unfolding refuse
target (alias m) = ok m.content
target x = refuse (must_be a_variable_name) x

unfoldable pub finish : Expression → Result {0} Unit
finish (failed p e) = err e
finish x = ok tt

-- What a plain scalar decodes to; a quoted one is none of the values asked for here.
unfoldable pub plain_value : Mark → Error → Result Opaque
plain_value m e =
    if m.double_quoted
    then err e
    else if m.single_quoted
    then err e
    else elim m.decoded [ err e' ↦ err e | ok v ↦ ok v ]

unfoldable pub int_value : Error → Result Opaque → Result ℤ
int_value e (ok (int i)) = ok i
int_value e _ = err e

unfoldable pub float_value : (ℤ → Float64) → Error → Result Opaque → Result Float64
float_value to_float e (ok (float f)) = ok f
float_value to_float e (ok (int i)) = ok (to_float i)
float_value to_float e _ = err e

unfoldable pub string_value : Mark → Result Bytes
string_value m =
    if m.double_quoted
    then ok m.content
    else if m.single_quoted
    then ok m.content
    else err (must_be a_string m.place)

-- `GetResource`, `GetInt`, `GetFloat` and `GetString` in a scope, with the number that is drawn if a
-- variable is read.
module _ (draw : ℕ) (scope : Scope) where
  unfoldable pub get_resource : Bytes → Expression → Result Opaque × Scope
  unfolding refuse
  get_resource domain (alias m) = alias_get_resource draw domain m.content scope
  get_resource domain x = (refuse (must_be (a_resource domain)) x, scope)

  unfoldable pub get_int : Expression → Result ℤ × Scope
  unfolding refuse
  get_int (scalar m) = let e = must_be an_int m.place in (int_value e (plain_value m e), scope)
  get_int (alias m) = alias_get_int draw m.content scope
  get_int x = (refuse (must_be an_int) x, scope)

  unfoldable pub get_float : (ℤ → Float64) → Expression → Result Float64 × Scope
  unfolding refuse
  get_float to_float (scalar m) =
      let e = must_be a_float m.place in (float_value to_float e (plain_value m e), scope)
  get_float to_float (alias m) = alias_get_float to_float draw m.content scope
  get_float to_float x = (refuse (must_be a_float) x, scope)

  unfoldable pub get_string : Expression → Result Bytes × Scope
  unfolding refuse
  get_string (scalar m) = (string_value m, scope)
  get_string (alias m) = alias_get_string draw m.content scope
  get_string x = (refuse (must_be a_string) x, scope)

-- `scope`: a sequence of declarations, read in a new scope inside the given one.
unfoldable pub scope_of :
    (Expression → Scope → Result (Bytes × BasicScopeEntry) × Scope)
    → Scope
    → Expression
    → Result Scope
unfolding refuse
scope_of parse_variable scope (sequence m es) =
    parse_scope parse_variable (items es) [] ([] ∷ scope)
scope_of parse_variable scope x = refuse (must_be a_scope) x
