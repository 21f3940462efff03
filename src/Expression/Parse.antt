-- ===== src/Expression/Parse.antt =====
-- core/benchmark.go: `parseBenchmarkYaml`, which makes expressions of the nodes that the YAML library
-- returns.
use diablo.Prelude.{ℕ, suc, Option, none, some, [], Bytes, bytes_key, pos, Map, lookup, insert}
use diablo.Wire.Errors.{Result, ok, err, and_then, field_twice, not_implemented, index_out_of_range}
use diablo.Expression.{
  Mark, Expression, Expressions, field, mapping, sequence, scalar, alias, end, item, get_item, key,
  position,
}

pub data Kind : Type 0 where
  document_node mapping_node sequence_node scalar_node alias_node : Kind

mutual
  pub data Yaml : Type 0 where
    node : Kind → Mark → Nodes → Yaml

  pub data Nodes : Type 0 where
    no_node : Nodes
    child : Yaml → Nodes → Nodes

abbrev pub mark_of : Yaml → Mark
mark_of (node kind m nodes) = m

unfoldable pub append_item : Expressions → Expression → Expressions
append_item end e = item e end
append_item (item e' es) e = item e' (append_item es e)

-- `parseBenchmarkYamlField`, of what its key and its value are read into.
unfoldable pub parse_field : Mark → Result Expression → Result Expression → Result Expression
parse_field m (ok k) (ok v) = ok (field m k v)
parse_field m (ok k) (err e) = err e
parse_field m (err e) v = err e

unfoldable pub twice : Mark → ℕ → Expressions → Result (Map Bytes ℕ × Expressions)
unfolding get_item key position
twice m j es = elim (get_item es j) [
  | none ↦ err (index_out_of_range (pos j))
  | some e ↦ err (field_twice m.place (position (key e)))
]

-- A field added behind the others, if the index does not have its key.
unfoldable pub add_field :
    Mark
    → ℕ
    → Map Bytes ℕ
    → Expressions
    → Option ℕ
    → Result Expression
    → Result (Map Bytes ℕ × Expressions)
unfolding append_item twice
add_field m i index es none (ok e) = ok (insert m.content i index, append_item es e)
add_field m i index es none (err e) = err e
add_field m i index es (some j) r = twice m j es

-- `parse_fields` is the loop of `parseBenchmarkYamlMapping`, with the fields so far and their index; a
-- last key without a value is left out. `parse_items` is that of `parseBenchmarkYamlSequence`.
unfoldable mutual
  unfolding append_item parse_field add_field

  pub parse_yaml : Yaml → Result Expression
  parse_yaml (node document_node m nodes) = err (not_implemented m.place)
  parse_yaml (node mapping_node m nodes) =
      and_then (parse_fields nodes 0 [] end) (λ (index, es). ok (mapping m index es))
  parse_yaml (node sequence_node m nodes) =
      and_then (parse_items nodes end) (λ es. ok (sequence m es))
  parse_yaml (node scalar_node m nodes) = ok (scalar m)
  parse_yaml (node alias_node m nodes) = ok (alias m)

  pub parse_fields : Nodes → ℕ → Map Bytes ℕ → Expressions → Result (Map Bytes ℕ × Expressions)
  parse_fields (child k (child v rest)) i index es =
      let m = mark_of k in
      let e = parse_field m (parse_yaml k) (parse_yaml v) in
      and_then (add_field m i index es (lookup m.content index) e)
        (λ (index', es'). parse_fields rest (suc i) index' es')
  parse_fields (child k no_node) i index es = ok (index, es)
  parse_fields no_node i index es = ok (index, es)

  pub parse_items : Nodes → Expressions → Result Expressions
  parse_items no_node es = ok es
  parse_items (child y ys) es = and_then (parse_yaml y) (λ e. parse_items ys (append_item es e))
