-- ===== src/Primary/Collect.antt =====
-- core/nprimary.go: `collect`, which reads the results of a secondary up to the end marker.
pub mod Ends
pub mod Reads
use diablo.Prelude.{
  ℕ, zero, suc, Option, none, some, List, [], ◌∷◌, Bytes, ℤ, pos, negsuc, leb_ℤ, length, get_elem?,
  if◌then◌else◌,
}
use diablo.Wire.Errors.{
  Error, Result, ok, err, and_then, invalid_client_id, invalid_interaction_kind, index_out_of_range,
  out_of_fuel,
}
use diablo.Wire.Source.{Parser, ◌>>=◌, pure, fail, lift}
use diablo.Message.Outcome.{MsgResult, MsgResultInteraction, done, interaction, decode_result}
use diablo.Report.{InteractionResult, SecondaryResult, new_secondary_result, add_result}
use diablo.Primary.{RemoteClient, RemoteSecondary}

-- `xs[i]`, which panics outside the slice.
abbrev pub element {ℓ} : {A : Type ℓ} → List A → ℤ → Result A
element xs (negsuc n) = err (index_out_of_range (negsuc n))
element xs (pos i) = elim (get_elem? xs i) [
  | none ↦ err (index_out_of_range (pos i))
  | some a ↦ ok a
]

-- `if i >= len(xs) { return err }`, then `xs[i]`.
unfoldable pub checked_element {ℓ} : {A : Type ℓ} → List A → ℤ → Error → Result A
checked_element xs i e = if leb_ℤ (length xs) i then err e else element xs i

abbrev pub result_of : Bytes → MsgResultInteraction → InteractionResult
result_of kind m = record {
  kind = kind;
  submit_time = m.submit_time;
  commit_time = m.commit_time;
  abort_time = m.abort_time;
  has_error = m.has_error;
}

-- One round of the loop on the result of an interaction.
unfoldable pub collect_one :
    List RemoteClient → MsgResultInteraction → SecondaryResult → Result SecondaryResult
collect_one clients m result =
    and_then (checked_element clients m.index (invalid_client_id m.index)) (λ client.
      and_then (checked_element client.kinds m.ikind (invalid_interaction_kind m.ikind))
        (λ kind. ok (add_result m.index client.kind (result_of kind m) result)))

unfoldable pub collect_loop : ℕ → List RemoteClient → SecondaryResult → Parser SecondaryResult
collect_loop zero clients result = fail out_of_fuel
collect_loop (suc fuel) clients result = do
  msg ← decode_result
  elim msg [
    | done ↦ pure result
    | interaction m ↦ do
      result' ← lift (collect_one clients m result)
      collect_loop fuel clients result'
  ]

-- Each round takes a byte at least, so there are at most as many as bytes.
unfoldable pub collect : RemoteSecondary → Parser SecondaryResult
collect s input =
    collect_loop (suc (length input)) s.clients (new_secondary_result s.addr s.tags) input
