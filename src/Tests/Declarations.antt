-- ===== src/Tests/Declarations.antt =====
-- The declarations of a variable that copies the number 5, and of a die.
use diablo.Prelude.{ℕ, ◌%◌, ◌≤◌, arith, true, ◌≡◌, refl, false, none, [], ◌∷◌, Bytes, lookup, pos}
use diablo.Wire.Errors.{ok}
use diablo.Random.{regular}
use diablo.Variable.{int, plus}
use diablo.Scope.{Scope, get_entry, parse_scope, alias_get_int, integer_domain}
use diablo.Expression.{
  Mark, Expression, mapping, field, scalar, end, item, get_item, name, name_of_mark, etype,
  type_of_mark, target, refuse, try_field, find_field, value, field_of, or_failed, get_int,
  int_value, plain_value,
}
use diablo.Declare.Texts.{copy_text, sample_text, from_text, to_text}
use diablo.Declare.{variable_type, parse_variable}
use diablo.Declare.Integers.{sample_factory_of, parse_variable-integers}
use diablo.Declare.Copies.{parse_variable-undeclared}

abbrev named : Bytes → Bytes → Mark
named anchor s = record {
  tagged = false;
  double_quoted = false;
  single_quoted = false;
  tag = [];
  anchor = anchor;
  content = s;
  place = (1, 1);
  decoded = ok (int (pos 5));
}

abbrev name_v : Bytes
name_v = 118 ∷ []

abbrev five : Expression
five = scalar (named [] (53 ∷ []))

abbrev copies_five : Expression
copies_five =
    mapping (named name_v []) ((copy_text, 0) ∷ [])
      (item (field (named [] copy_text) (scalar (named [] copy_text)) five) end)

copies_five-name : name copies_five ≡ ok name_v
unfolding name name_of_mark
copies_five-name = refl

copies_five-type : variable_type (etype copies_five) ≡ ok regular
unfolding etype type_of_mark variable_type
copies_five-type = refl

copies_five-copy : try_field copy_text copies_five ≡ ok five
unfolding try_field find_field lookup get_item value
copies_five-copy = refl

parse_variable-undeclared_example :
    (result : Scope) × ((parse_scope
          (parse_variable (λ domain. none) (λ x. 0))
          (copies_five ∷ [])
          []
          ([] ∷ [])
        ≡ ok result)
      × (get_entry name_v result ≡ get_entry name_v ([] ∷ [])))
unfolding try_field find_field lookup target refuse
parse_variable-undeclared_example =
    parse_variable-undeclared (λ domain. none) (λ x. 0) copies_five five ([] ∷ []) name_v regular
      copies_five-name copies_five-type refl refl copies_five-copy refl name_v (λ e. cc)

abbrev number : ℕ → Expression
number k = scalar (record (named [] []) { decoded = ok (int (pos k)) })

-- A die: sample: !integer {from: 1, to: 6}
abbrev die_sample : Expression
die_sample =
    mapping (record (named [] []) { tagged = true; tag = 33 ∷ integer_domain })
      ((from_text, 0) ∷ (to_text, 1) ∷ [])
      (item (field (named [] from_text) (number 0) (number 1))
        (item (field (named [] to_text) (number 0) (number 6)) end))

abbrev die : Expression
die =
    mapping (named name_v []) ((sample_text, 0) ∷ [])
      (item (field (named [] sample_text) (number 0) die_sample) end)

die-name : name die ≡ ok name_v
unfolding name name_of_mark
die-name = refl

die-type : variable_type (etype die) ≡ ok regular
unfolding etype type_of_mark variable_type
die-type = refl

die_sample-type : etype die_sample ≡ ok integer_domain
unfolding etype type_of_mark
die_sample-type = refl

parse_variable-integers_example :
    (result : Scope) × (parse_scope
        (parse_variable (sample_factory_of (λ x. 0) (λ domain. none)) (λ x. 0))
        (die ∷ [])
        []
        ([] ∷ [])
      ≡ ok result)
    × (alias_get_int 8 name_v result ≡ (ok (plus (pos 1) (8 % 6)), result))
    × (8 % 6 ≤ 5)
unfolding try_field find_field lookup get_item value field_of or_failed get_int int_value
    plain_value plus
parse_variable-integers_example =
    parse_variable-integers (λ x. 0) (λ domain. none) die die_sample [] name_v (pos 1) 5 8 die-name
      die-type refl refl die_sample-type refl refl refl (omega arith) (omega arith) (omega arith)
