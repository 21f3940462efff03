-- ===== src/Expression/Readable.antt =====
-- core/benchmark.go: which nodes are read without an error.
use diablo.Prelude.{
  ℕ, suc, ◌≡◌, refl, ◌∙◌, inl, inr, Option-cases, Bool, true, false, ◌&&◌, ◌||◌, Option, none, some,
  List, [], ◌∷◌, Bytes, bytes_key, bytes_eq, Map, lookup, insert, lookup-insert, arith,
}
use diablo.Wire.Errors.{Result, ok, err, and_then}
use diablo.Expression.{Mark, Expression, Expressions, mapping, sequence, end, get_item}
use diablo.Expression.Parse.{
  document_node, mapping_node, sequence_node, scalar_node, alias_node, Yaml, node, Nodes, no_node,
  child, mark_of, append_item, parse_field, twice, add_field, parse_yaml, parse_fields, parse_items,
}

unfoldable pub succeeds : {A : Type 0} → Result A → Bool
succeeds (ok a) = true
succeeds (err e) = false

unfoldable flip : Bool → Bool
flip true = false
flip false = true

unfoldable contains : Bytes → List Bytes → Bool
contains k [] = false
contains k (j ∷ js) = bytes_eq k j || contains k js

unfoldable distinct : List Bytes → Bool
unfolding contains flip
distinct [] = true
distinct (k ∷ ks) = flip (contains k ks) && distinct ks

-- The names of the fields.
unfoldable keys : Nodes → List Bytes
keys (child k (child v rest)) = (mark_of k).content ∷ keys rest
keys (child k no_node) = []
keys no_node = []

-- No document stands inside, and no mapping has two fields of one name.
unfoldable mutual
  unfolding distinct keys

  pub is_readable : Yaml → Bool
  is_readable (node document_node m nodes) = false
  is_readable (node mapping_node m nodes) = distinct (keys nodes) && readable_pairs nodes
  is_readable (node sequence_node m nodes) = readable_all nodes
  is_readable (node scalar_node m nodes) = true
  is_readable (node alias_node m nodes) = true

  readable_pairs : Nodes → Bool
  readable_pairs (child k (child v rest)) = (is_readable k && is_readable v) && readable_pairs rest
  readable_pairs (child k no_node) = true
  readable_pairs no_node = true

  readable_all : Nodes → Bool
  readable_all no_node = true
  readable_all (child y ys) = is_readable y && readable_all ys

unfoldable absent : Option ℕ → Bool
absent none = true
absent (some i) = false

-- None of the names is in the index.
unfoldable fresh : List Bytes → Map Bytes ℕ → Bool
unfolding absent
fresh [] index = true
fresh (k ∷ ks) index = absent (lookup k index) && fresh ks index

fresh-insert :
    (ks : List Bytes) (k : Bytes) (i : ℕ) (index : Map Bytes ℕ)
    → fresh ks (insert k i index) ≡ (fresh ks index && flip (contains k ks))
unfolding fresh contains flip absent
fresh-insert [] k i index = refl
fresh-insert (j ∷ ks) k i index =
    ground (arith, lookup-insert k j i index, fresh-insert ks k i index)

succeeds-and_then :
    {A : Type 0} {B : Type 0} (r : Result A) (f : A → Result B) (b : Bool)
    → ((a : A) → succeeds (f a) ≡ b)
    → succeeds (and_then r f) ≡ (succeeds r && b)
unfolding succeeds
succeeds-and_then (ok a) f b h = h a
succeeds-and_then (err e) f b h = refl

succeeds-twice : (m : Mark) (j : ℕ) (es : Expressions) → succeeds (twice m j es) ≡ false
unfolding succeeds twice
succeeds-twice m j es = elim (Option-cases (get_item es j)) [
  | inl missing ↦ rw (twice, missing) refl
  | inr (e, there) ↦ rw (twice, there) refl
]

succeeds-parse_field :
    (m : Mark) (k v : Result Expression) → succeeds (parse_field m k v) ≡ (succeeds k && succeeds v)
unfolding succeeds parse_field
succeeds-parse_field m (ok k) (ok v) = refl
succeeds-parse_field m (ok k) (err e) = refl
succeeds-parse_field m (err e) v = refl

succeeds-add_field :
    {B : Type 0} (m : Mark) (i : ℕ) (index : Map Bytes ℕ) (es : Expressions) (o : Option ℕ)
    (r : Result Expression) (f : Map Bytes ℕ × Expressions → Result B) (b : Bool)
    → ((es' : Expressions) → succeeds (f (insert m.content i index, es')) ≡ b)
    → succeeds (and_then (add_field m i index es o r) f) ≡ ((absent o && succeeds r) && b)
unfolding succeeds add_field absent
succeeds-add_field m i index es none (ok e) f b h = h (append_item es e)
succeeds-add_field m i index es none (err e) f b h = refl
succeeds-add_field m i index es (some j) r f b h =
    ground (arith, succeeds-and_then (twice m j es) f)

fresh-empty : (ks : List Bytes) → fresh ks [] ≡ true
unfolding fresh absent lookup
fresh-empty [] = refl
fresh-empty (k ∷ ks) = fresh-empty ks

and_true : (b : Bool) → (b && true) ≡ b
and_true true = refl
and_true false = refl

regroup :
    (a b f c d r : Bool)
    → ((a && b) && (((f && c) && d) && r)) ≡ (((a && f) && (c && d)) && (b && r))
regroup a b f c d r = ground arith

mutual
  unfolding succeeds parse_yaml parse_fields parse_items is_readable readable_pairs readable_all
      keys fresh distinct

  succeeds-yaml : (y : Yaml) → succeeds (parse_yaml y) ≡ is_readable y
  succeeds-yaml (node document_node m nodes) = refl
  succeeds-yaml (node mapping_node m nodes) =
      succeeds-and_then (parse_fields nodes 0 [] end) (λ (index, es). ok (mapping m index es)) true
        (λ a. refl)
      ∙ and_true (succeeds (parse_fields nodes 0 [] end))
      ∙ succeeds-fields nodes 0 [] end
      ∙ rw (fresh-empty (keys nodes)) refl
  succeeds-yaml (node sequence_node m nodes) =
      succeeds-and_then (parse_items nodes end) (λ es. ok (sequence m es)) true (λ a. refl)
      ∙ and_true (succeeds (parse_items nodes end))
      ∙ succeeds-items nodes end
  succeeds-yaml (node scalar_node m nodes) = refl
  succeeds-yaml (node alias_node m nodes) = refl

  succeeds-fields :
      (nodes : Nodes) (i : ℕ) (index : Map Bytes ℕ) (es : Expressions)
      → succeeds (parse_fields nodes i index es)
        ≡ ((fresh (keys nodes) index && distinct (keys nodes)) && readable_pairs nodes)
  succeeds-fields no_node i index es = refl
  succeeds-fields (child k no_node) i index es = refl
  succeeds-fields (child k (child v rest)) i index es =
      let m = mark_of k in
      let r = parse_field m (parse_yaml k) (parse_yaml v) in
      succeeds-add_field m i index es (lookup m.content index) r
        (λ (index', es'). parse_fields rest (suc i) index' es')
        ((fresh (keys rest) (insert m.content i index) && distinct (keys rest))
          && readable_pairs rest)
        (λ es'. succeeds-fields rest (suc i) (insert m.content i index) es')
      ∙ rw (fresh-insert (keys rest) m.content i index) (
          rw (succeeds-parse_field m (parse_yaml k) (parse_yaml v)) (
            rw (succeeds-yaml k) (
              rw (succeeds-yaml v) (
                regroup (absent (lookup m.content index)) (is_readable k && is_readable v)
                  (fresh (keys rest) index) (flip (contains m.content (keys rest)))
                  (distinct (keys rest)) (readable_pairs rest)))))

  succeeds-items :
      (nodes : Nodes) (es : Expressions) → succeeds (parse_items nodes es) ≡ readable_all nodes
  succeeds-items no_node es = refl
  succeeds-items (child y ys) es =
      succeeds-and_then (parse_yaml y) (λ e. parse_items ys (append_item es e)) (readable_all ys)
        (λ e. succeeds-items ys (append_item es e))
      ∙ rw (succeeds-yaml y) refl

-- A node is read without an error if and only if it is readable: there is no document inside, and no
-- mapping inside, be it in a value or in a key, has two fields whose keys have one text.
pub succeeds-parse_yaml : (y : Yaml) → succeeds (parse_yaml y) ≡ is_readable y
succeeds-parse_yaml y = succeeds-yaml y
