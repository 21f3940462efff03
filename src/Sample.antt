-- ===== src/Sample.antt =====
-- core/builtin.go: `elementSample`, and the sample of the elements whose tags match the filters of a
-- benchmark. A compiled regular expression is of a type `Filter`, with its test of a string.
pub mod Filtered
use diablo.Prelude.{
  ℕ, Bool, true, false, none, some, List, [], ◌∷◌, ◌++◌, Bytes, pos, length, get_elem?,
  if◌then◌else◌,
}
use diablo.Wire.Errors.{Result, ok, err, index_out_of_range}

module _ {Element : Type 0} where
  -- `Size` and `Get`
  unfoldable pub size_of : List Element → ℕ
  size_of elements = length elements

  unfoldable pub get : List Element → ℕ → Result Element
  get elements index = elim (get_elem? elements index) [
    | none ↦ err (index_out_of_range (pos index))
    | some e ↦ ok e
  ]

module _ {Filter Element : Type 0} (matches : Filter → Bytes → Bool)
    (tags : Element → List Bytes) where
  -- The loop over the tags of an element, up to the first that matches.
  unfoldable pub passes : Filter → List Bytes → Bool
  passes filter [] = false
  passes filter (tag ∷ ts) = if matches filter tag then true else passes filter ts

  -- The loop over the elements: those that failed already are passed over.
  unfoldable pub fail_one : Filter → List Element → List Bool → List Bool
  fail_one filter [] faileds = []
  fail_one filter (e ∷ es) [] = []
  fail_one filter (e ∷ es) (true ∷ faileds) = true ∷ fail_one filter es faileds
  fail_one filter (e ∷ es) (false ∷ faileds) =
      (if passes filter (tags e) then false else true) ∷ fail_one filter es faileds

  unfoldable pub fail_all : List Filter → List Element → List Bool → List Bool
  fail_all [] es faileds = faileds
  fail_all (filter ∷ filters) es faileds = fail_all filters es (fail_one filter es faileds)

  -- `make([]bool, len(telements))`
  unfoldable pub none_failed : List Element → List Bool
  none_failed [] = []
  none_failed (e ∷ es) = false ∷ none_failed es

  unfoldable pub kept : List Element → List Bool → List Element
  kept [] faileds = []
  kept (e ∷ es) [] = []
  kept (e ∷ es) (true ∷ faileds) = kept es faileds
  kept (e ∷ es) (false ∷ faileds) = e ∷ kept es faileds

  -- `newFilteredElementSample`; the count of the elements only sizes the slice.
  unfoldable pub new_filtered_sample : List Filter → List Element → List Element
  new_filtered_sample filters es = kept es (fail_all filters es (none_failed es))
