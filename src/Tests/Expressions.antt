-- ===== src/Tests/Expressions.antt =====
-- The expressions of a small benchmark file: a: {b: 7}, c: "d".
use diablo.Prelude.{◌≡◌, refl, false, true, List, [], ◌∷◌, Bytes, pos, lookup, insert}
use diablo.Wire.Errors.{ok, err, Position, must_be, missing_field, an_int, a_mapping}
use diablo.Variable.{int}
use diablo.Expression.{
  Mark, Expression, mapping, field, scalar, end, item, field_of, try_field, or_failed, find_field,
  get_item, value, int_value, plain_value, get_int, get_float, get_string, get_resource,
}
use diablo.Expression.Parse.{
  mapping_node, scalar_node, Yaml, node, Nodes, no_node, child, parse_yaml,
}
use diablo.Expression.Fields.{expected_field, try_field-parse_yaml}
use diablo.Expression.Follow.{follow, try_follow, read_checked, get-follow}
use diablo.Expression.Readable.{succeeds, is_readable, succeeds-parse_yaml}

abbrev plain : Bytes → Position → Mark
plain s p = record {
  tagged = false;
  double_quoted = false;
  single_quoted = false;
  tag = [];
  anchor = [];
  content = s;
  place = p;
  decoded = ok (int (pos 7));
}

abbrev name_a : Bytes
name_a = 97 ∷ []

abbrev name_b : Bytes
name_b = 98 ∷ []

abbrev name_c : Bytes
name_c = 99 ∷ []

abbrev inner : Nodes
inner =
    child (node scalar_node (plain name_b (1, 5)) no_node)
      (child (node scalar_node (plain (55 ∷ []) (1, 8)) no_node) no_node)

abbrev outer : Nodes
outer = child (node scalar_node (plain name_a (1, 1)) no_node) (
    child (node mapping_node (plain [] (1, 4)) inner) (
      child (node scalar_node (plain name_c (2, 1)) no_node) (
        child (node scalar_node (record (plain (100 ∷ []) (2, 4)) { double_quoted = true }) no_node)
          no_node)))

abbrev file : Yaml
file = node mapping_node (plain [] (1, 1)) outer

abbrev inner_read : Expression
inner_read = mapping (plain [] (1, 4)) ((name_b, 0) ∷ []) (
    item
      (field (plain name_b (1, 5)) (scalar (plain name_b (1, 5))) (scalar (plain (55 ∷ []) (1, 8))))
      end)

abbrev file_read : Expression
file_read = mapping (plain [] (1, 1)) ((name_a, 0) ∷ (name_c, 1) ∷ []) (
    item (field (plain name_a (1, 1)) (scalar (plain name_a (1, 1))) inner_read) (
      item
        (field (plain name_c (2, 1)) (scalar (plain name_c (2, 1)))
          (scalar (record (plain (100 ∷ []) (2, 4)) { double_quoted = true })))
        end))

file-parse : parse_yaml file ≡ ok file_read
unfolding parse_yaml lookup insert
file-parse = refl

try_field-parse_yaml_example : try_field name_a file_read ≡ expected_field (1, 1) name_a outer
try_field-parse_yaml_example = try_field-parse_yaml (plain [] (1, 1)) outer name_a file-parse

succeeds-parse_yaml_example : succeeds (parse_yaml file) ≡ is_readable file
succeeds-parse_yaml_example = succeeds-parse_yaml file

abbrev path : List Bytes
path = name_a ∷ name_b ∷ []

get-follow_example :
    let checked = try_follow path file_read in
    (get_int 0 [] (follow path file_read) ≡ read_checked (get_int 0 []) [] checked)
    × (get_float 0 [] (λ i. 0) (follow path file_read)
        ≡ read_checked (get_float 0 [] (λ i. 0)) [] checked)
    × (get_string 0 [] (follow path file_read) ≡ read_checked (get_string 0 []) [] checked)
    × (get_resource 0 [] name_c (follow path file_read)
        ≡ read_checked (get_resource 0 [] name_c) [] checked)
get-follow_example = get-follow 0 [] (λ i. 0) name_c path file_read

inside : get_int 0 [] (follow path file_read) ≡ (ok (pos 7), [])
unfolding follow field_of try_field get_int or_failed find_field lookup get_item value int_value
    plain_value
inside = refl

missing_first :
    get_int 0 [] (follow (name_b ∷ name_b ∷ []) file_read) ≡ (err (missing_field name_b (1, 1)), [])
unfolding follow field_of try_field get_int or_failed find_field lookup get_item value int_value
    plain_value
missing_first = refl

no_mapping :
    get_int 0 [] (follow (name_c ∷ name_b ∷ []) file_read) ≡ (err (must_be a_mapping (2, 4)), [])
unfolding follow field_of try_field get_int or_failed find_field lookup get_item value int_value
    plain_value
no_mapping = refl

quoted_number : get_int 0 [] (follow (name_c ∷ []) file_read) ≡ (err (must_be an_int (2, 4)), [])
unfolding follow field_of try_field get_int or_failed find_field lookup get_item value int_value
    plain_value
quoted_number = refl
