-- ===== src/Primary/Collect/Ends.antt =====
-- `collect` ends on every stream: it returns or fails on what it reads.
use diablo.Prelude.{ℕ, zero, suc, ◌<◌, ◌≢◌, List, Bytes, length, ℤ, pos, negsuc, ◌==◌, arith}
use diablo.Wire.Errors.{Error, err, and_then-ne-err, out_of_fuel}
use diablo.Wire.Source.{pure, fail, lift}
use diablo.Wire.Takes.{
  Takes, Takes-pure, Takes-fail, Takes-bind, Takes-byte, Takes-some_byte, Takes-little, Takes-lift,
  Takes-if, >>=-ne-fuel,
}
use diablo.Message.Outcome.{
  MsgResultInteraction, done, interaction, decode_result, decode_result_type,
  decode_result_interaction, type_done, type_interaction,
}
use diablo.Report.{SecondaryResult}
use diablo.Primary.{RemoteClient, RemoteSecondary}
use diablo.Primary.Collect.{checked_element, collect_one, collect_loop, collect}

Takes-result_interaction : Takes 0 decode_result_interaction
unfolding decode_result_interaction
Takes-result_interaction = Takes-bind 0 _ (Takes-little 4) (λ index.
    Takes-bind 0 _ Takes-some_byte (λ ikind. Takes-bind 0 _ (Takes-little 8) (λ submit.
      Takes-bind 0 _ (Takes-little 8) (λ commit.
        Takes-bind 0 _ (Takes-little 8)
          (λ abort. Takes-bind 0 _ Takes-some_byte (λ error. Takes-pure _))))))

Takes-result_type : (mtype : ℕ) → Takes 0 (decode_result_type mtype)
unfolding decode_result_type
Takes-result_type mtype =
    Takes-if (mtype == type_done) _ _ (Takes-pure done)
      (Takes-if (mtype == type_interaction) _ _ Takes-result_interaction (Takes-fail _ (λ e. cc)))

-- Reading a result takes a byte at least.
Takes-result : Takes 1 decode_result
unfolding decode_result
Takes-result = Takes-bind 1 _ Takes-byte Takes-result_type

checked_element-ne-fuel {ℓ} :
    {A : Type ℓ} (xs : List A) (i : ℤ) (e : Error)
    → e ≢ out_of_fuel
    → checked_element xs i e ≢ err out_of_fuel
unfolding checked_element
checked_element-ne-fuel xs (pos i) e h = λ p. ground arith
checked_element-ne-fuel xs (negsuc i) e h = λ p. cc

collect_one-ne-fuel :
    (clients : List RemoteClient) (m : MsgResultInteraction) (r : SecondaryResult)
    → collect_one clients m r ≢ err out_of_fuel
unfolding collect_one
collect_one-ne-fuel clients m r =
    and_then-ne-err out_of_fuel _ _ (checked_element-ne-fuel clients m.index _ (λ e. cc)) (λ c.
      and_then-ne-err out_of_fuel _ _ (checked_element-ne-fuel c.kinds m.ikind _ (λ e. cc))
        (λ k. λ e. cc))

module _ (clients : List RemoteClient) where
  collect_loop-ne-fuel :
      (fuel : ℕ) (r : SecondaryResult) (src : Bytes)
      → length src < fuel
      → collect_loop fuel clients r src ≢ err out_of_fuel
  unfolding collect_loop fail
  collect_loop-ne-fuel zero r src h = elim h [ ]
  collect_loop-ne-fuel (suc fuel) r src h = >>=-ne-fuel 1 decode_result _ src Takes-result (elim [
    | done ↦ λ rest took. unfold pure in λ e. cc
    | interaction m ↦ λ rest took.
        >>=-ne-fuel 0 (lift (collect_one clients m r)) _ rest
          (Takes-lift _ (collect_one-ne-fuel clients m r))
          (λ r' rest' took'. collect_loop-ne-fuel fuel r' rest' (omega arith))
  ])

-- Whatever the stream holds, `collect` ends: its loop never runs out of fuel.
pub collect-ne-fuel : (s : RemoteSecondary) (input : Bytes) → collect s input ≢ err out_of_fuel
unfolding collect
collect-ne-fuel s input = collect_loop-ne-fuel s.clients (suc (length input)) _ input (omega arith)
