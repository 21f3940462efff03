-- ===== src/Expression/Fields.antt =====
-- core/benchmark.go: the fields of a mapping that was read.
use diablo.Prelude.{
  ℕ, zero, suc, ◌<◌, ◌≡◌, ◌≢◌, refl, sym, ◌∙◌, ap, Option, none, some, [], Bytes, bytes_key,
  bytes_eq, bytes_eq_iff, Map, lookup, insert, lookup-insert, inl, inr, Option-cases, Bool-cases,
  if◌then◌else◌, arith,
}
use diablo.Wire.Errors.{Result, ok, err, and_then-ok, Position, missing_field}
use diablo.Expression.{
  Mark, Expression, Expressions, field, end, item, get_item, find_field, try_field, value,
}
use diablo.Expression.Parse.{
  mapping_node, Yaml, node, Nodes, no_node, child, mark_of, append_item, parse_field, add_field,
  twice, parse_yaml, parse_fields,
}

size : Expressions → ℕ
size end = 0
size (item e es) = suc (size es)

size-append_item : (es : Expressions) (e : Expression) → size (append_item es e) ≡ suc (size es)
unfolding size append_item
size-append_item end e = refl
size-append_item (item e' es) e = ap suc (size-append_item es e)

get_item-append_new :
    (es : Expressions) (e : Expression) → get_item (append_item es e) (size es) ≡ some e
unfolding size append_item get_item
get_item-append_new end e = refl
get_item-append_new (item e' es) e = get_item-append_new es e

get_item-append_old :
    (es : Expressions) (e : Expression) (i : ℕ)
    → i < size es
    → get_item (append_item es e) i ≡ get_item es i
unfolding size append_item get_item
get_item-append_old end e i h = elim h [ ]
get_item-append_old (item e' es) e zero h = refl
get_item-append_old (item e' es) e (suc i) h = get_item-append_old es e i (omega arith)

-- Every index is that of a field.
abbrev Fits : Map Bytes ℕ → Expressions → Type 0
Fits index es = (name : Bytes) (i : ℕ) → lookup name index ≡ some i → i < size es

Fits-insert :
    (k : Bytes) (index : Map Bytes ℕ) (es : Expressions) (e : Expression)
    → Fits index es
    → Fits (insert k (size es) index) (append_item es e)
Fits-insert k index es e h name i q =
    ground (arith, lookup-insert k name (size es) index, size-append_item es e, h name i)

find_field-insert :
    (p : Position) (name k : Bytes) (index : Map Bytes ℕ) (es : Expressions) (m : Mark)
    (x v : Expression)
    → Fits index es
    → find_field p name (insert k (size es) index) (append_item es (field m x v))
      ≡ (if bytes_eq k name then ok v else find_field p name index es)
unfolding find_field value
find_field-insert p name k index es m x v h =
    rw (find_field, lookup-insert k name (size es) index)
      (elim (Bool-cases (bytes_eq k name)) [
        | inl same ↦ rw same (rw (get_item-append_new es (field m x v)) refl)
        | inr other ↦ rw other (elim (Option-cases (lookup name index)) [
          | inl missing ↦ rw (find_field, missing) refl
          | inr (i, there) ↦
              rw (find_field, there)
                (rw (get_item-append_old es (field m x v) i (h name i there)) refl)
        ])
      ])

-- The value of the first pair of nodes whose key has the name.
unfoldable pub find_value : Bytes → Nodes → Option Yaml
find_value name (child k (child v rest)) =
    if bytes_eq (mark_of k).content name then some v else find_value name rest
find_value name (child k no_node) = none
find_value name no_node = none

-- What the field is by its node.
unfoldable pub expected_field : Position → Bytes → Nodes → Result Expression
expected_field p name nodes = elim (find_value name nodes) [
  | none ↦ err (missing_field name p)
  | some y ↦ parse_yaml y
]

twice-ne-ok :
    (m : Mark) (j : ℕ) (es : Expressions) {r : Map Bytes ℕ × Expressions} → twice m j es ≢ ok r
unfolding twice
twice-ne-ok m j es = elim (Option-cases (get_item es j)) [
  | inl missing ↦ rw (twice, missing) (λ q. cc)
  | inr (e, there) ↦ rw (twice, there) (λ q. cc)
]

parse_field-ok :
    (m : Mark) (k v : Result Expression) {e : Expression}
    → parse_field m k v ≡ ok e
    → (x : Expression) × ((y : Expression) × ((v ≡ ok y) × (field m x y ≡ e)))
unfolding parse_field
parse_field-ok m (ok x) (ok y) h = (x, (y, (refl, cc)))
parse_field-ok m (ok x) (err e) h = cc
parse_field-ok m (err e) v h = cc

add_field-ok :
    (m : Mark) (i : ℕ) (index : Map Bytes ℕ) (es : Expressions) (o : Option ℕ)
    (r : Result Expression) {index' : Map Bytes ℕ} {es' : Expressions}
    → add_field m i index es o r ≡ ok (index', es')
    → (o ≡ none)
      × ((e : Expression) × ((r ≡ ok e)
            × ((insert m.content i index ≡ index') × (append_item es e ≡ es'))))
unfolding add_field
add_field-ok m i index es none (ok e) h = (refl, (e, (refl, (cc, cc))))
add_field-ok m i index es none (err e) h = cc
add_field-ok m i index es (some j) r h = elim (twice-ne-ok m j es h) [ ]

-- What is found among the fields so far, or else among the nodes that are left.
unfoldable found : Position → Bytes → Map Bytes ℕ → Expressions → Nodes → Result Expression
found p name index es nodes = elim (lookup name index) [
  | none ↦ expected_field p name nodes
  | some i ↦ find_field p name index es
]

ok_injective : {A : Type 0} {a b : A} → ok a ≡ ok b → a ≡ b
ok_injective h = cc

found-missing :
    (p : Position) (name : Bytes) (index : Map Bytes ℕ) (es : Expressions) (nodes : Nodes)
    → find_value name nodes ≡ none
    → find_field p name index es ≡ found p name index es nodes
unfolding found find_field expected_field
found-missing p name index es nodes h = elim (Option-cases (lookup name index)) [
  | inl missing ↦ rw (find_field, found, expected_field, missing, h) refl
  | inr (i, there) ↦ rw (found, there) refl
]

found-add :
    (p : Position) (name : Bytes) (k v : Yaml) (rest : Nodes) (index : Map Bytes ℕ)
    (es : Expressions) (x y : Expression)
    → Fits index es
    → lookup (mark_of k).content index ≡ none
    → parse_yaml v ≡ ok y
    → found p name
        (insert (mark_of k).content (size es) index)
        (append_item es (field (mark_of k) x y))
        rest
      ≡ found p name index es (child k (child v rest))
unfolding found expected_field find_value
found-add p name k v rest index es x y fits new value_ok =
    let m = mark_of k in
    elim (Bool-cases (bytes_eq m.content name)) [
      | inl same ↦
          let missing : lookup name index ≡ none =
            rw (sym ((bytes_eq_iff m.content name).0 same)) new in
          rw (found, lookup-insert m.content name (size es) index, same, missing)
            (find_field-insert p name m.content index es m x y fits
              ∙ rw (same, expected_field, find_value, value_ok) refl)
      | inr other ↦
          rw (found, lookup-insert m.content name (size es) index, other)
            (elim (Option-cases (lookup name index)) [
              | inl missing ↦ rw (missing, found, expected_field, find_value, other) refl
              | inr (i, there) ↦
                  rw (there, found)
                    (find_field-insert p name m.content index es m x y fits ∙ rw other refl)
            ])
    ]

parse_fields-found :
    (p : Position) (name : Bytes) (nodes : Nodes) (index : Map Bytes ℕ) (es : Expressions)
    {index' : Map Bytes ℕ} {es' : Expressions}
    → Fits index es
    → parse_fields nodes (size es) index es ≡ ok (index', es')
    → find_field p name index' es' ≡ found p name index es nodes
unfolding parse_fields found expected_field find_value
parse_fields-found p name no_node index es fits h =
    rw (sym (ap (λ r. r.0) (ok_injective h)), sym (ap (λ r. r.1) (ok_injective h)))
      (found-missing p name index es no_node refl)
parse_fields-found p name (child k no_node) index es fits h =
    rw (sym (ap (λ r. r.0) (ok_injective h)), sym (ap (λ r. r.1) (ok_injective h)))
      (found-missing p name index es (child k no_node) refl)
parse_fields-found p name (child k (child v rest)) index es fits h =
    let m = mark_of k in
    let r = parse_field m (parse_yaml k) (parse_yaml v) in
    let ((index'', es''), (added, next)) =
      and_then-ok (add_field m (size es) index es (lookup m.content index) r) _ h in
    let (new, (e, (read, (index_same, es_same)))) =
      add_field-ok m (size es) index es (lookup m.content index) r added in
    let (x, (y, (value_ok, same))) = parse_field-ok m (parse_yaml k) (parse_yaml v) read in
    parse_fields-found p name rest (insert m.content (size es) index) (append_item es e)
      (Fits-insert m.content index es e fits) (rw (size-append_item es e, index_same, es_same) next)
    ∙ rw (sym same) (found-add p name k v rest index es x y fits new value_ok)

Fits-empty : Fits [] end
unfolding lookup
Fits-empty name i h = cc

-- Reading a mapping makes a field of each pair of nodes: where it succeeds, `TryField` of a name is what
-- the value of the pair with this name is read into, and an error that names the field if no pair has
-- the name.
pub try_field-parse_yaml :
    (m : Mark) (nodes : Nodes) (name : Bytes) {e : Expression}
    → parse_yaml (node mapping_node m nodes) ≡ ok e
    → try_field name e ≡ expected_field m.place name nodes
unfolding parse_yaml try_field size expected_field found find_value lookup
try_field-parse_yaml m nodes name h =
    let ((index, es), (read, same)) = and_then-ok (parse_fields nodes 0 [] end) _ h in
    rw (sym (ok_injective same)) (parse_fields-found m.place name nodes [] end Fits-empty read)
