-- ===== src/Secondary/Ends.antt =====
-- `prepare` ends on every stream.
use diablo.Prelude.{ℕ, zero, suc, ◌<◌, ◌≢◌, List, Bytes, length, Map, ◌==◌, arith, int_key}
use diablo.Wire.Errors.{err, out_of_fuel, and_then-ne-err}
use diablo.Wire.Source.{pure, lift}
use diablo.Wire.Takes.{
  Takes, Takes-pure, Takes-fail, Takes-bind, Takes-byte, Takes-some_byte, Takes-little, Takes-full,
  Takes-short_string, Takes-lift, Takes-if, >>=-ne-fuel,
}
use diablo.Message.Strings.{read_strings}
use diablo.Message.Prepare.{
  MsgPrepareClient, MsgPrepareInteraction, done, client, interaction, decode_prepare,
  decode_prepare_type, decode_client, decode_interaction, type_done, type_client, type_interaction,
}
use diablo.Secondary.{Blockchain, Preparation, prepare_client, prepare_interaction, prepare_loop}

Takes-strings : (n : ℕ) → Takes 0 (read_strings n)
unfolding read_strings
Takes-strings zero = Takes-pure _
Takes-strings (suc n) =
    Takes-bind 0 _ Takes-short_string (λ s. Takes-bind 0 _ (Takes-strings n) (λ ss. Takes-pure _))

Takes-client : Takes 0 decode_client
unfolding decode_client
Takes-client = Takes-bind 0 _ (Takes-little 2) (λ nview.
    Takes-bind 0 _ (Takes-strings nview)
      (λ view. Takes-bind 0 _ (Takes-little 4) (λ index. Takes-pure _)))

Takes-interaction : Takes 0 decode_interaction
unfolding decode_interaction
Takes-interaction = Takes-bind 0 _ (Takes-little 4) (λ index.
    Takes-bind 0 _ Takes-some_byte (λ ikind. Takes-bind 0 _ (Takes-little 8) (λ time.
      Takes-bind 0 _ (Takes-little 2)
        (λ lpayload. Takes-bind 0 _ (Takes-full lpayload) (λ payload. Takes-pure _)))))

Takes-prepare_type : (mtype : ℕ) → Takes 0 (decode_prepare_type mtype)
unfolding decode_prepare_type
Takes-prepare_type mtype = Takes-if (mtype == type_done) _ _ (Takes-pure done) (
    Takes-if (mtype == type_client) _ _ Takes-client
      (Takes-if (mtype == type_interaction) _ _ Takes-interaction (Takes-fail _ (λ e. cc))))

-- Reading a prepare message takes a byte at least.
Takes-prepare : Takes 1 decode_prepare
unfolding decode_prepare
Takes-prepare = Takes-bind 1 _ Takes-byte Takes-prepare_type

-- The blockchain's own errors are other errors than the lack of fuel.
pub record HasOwnErrors (chain : Blockchain) : Type 0 where
  pub new_client :
      (params : Map Bytes Bytes) (view : List Bytes)
      → chain.new_client params view ≢ err out_of_fuel

module _ (chain : Blockchain) (own : HasOwnErrors chain) (params : Map Bytes Bytes) where
  prepare_client-ne-fuel :
      (m : MsgPrepareClient) (p : Preparation chain)
      → prepare_client chain params m p ≢ err out_of_fuel
  unfolding prepare_client
  prepare_client-ne-fuel m p =
      and_then-ne-err out_of_fuel _ _ (own.new_client params m.view) (λ inner. λ e. cc)

  prepare_interaction-ne-fuel :
      (m : MsgPrepareInteraction) (p : Preparation chain)
      → prepare_interaction chain m p ≢ err out_of_fuel
  unfolding prepare_interaction
  prepare_interaction-ne-fuel m p = λ e. ground arith

  -- With a blockchain that has no such error of its own, and whatever the stream holds, the loop
  -- of `prepare` does not run out of fuel if its fuel is more than the bytes.
  pub prepare_loop-ne-fuel :
      (fuel : ℕ) (p : Preparation chain) (src : Bytes)
      → length src < fuel
      → prepare_loop chain fuel params p src ≢ err out_of_fuel
  unfolding prepare_loop
  prepare_loop-ne-fuel zero p src h = elim h [ ]
  prepare_loop-ne-fuel (suc fuel) p src h = >>=-ne-fuel 1 decode_prepare _ src Takes-prepare (elim [
    | done ↦ λ rest took. unfold pure in λ e. cc
    | client m ↦ λ rest took.
        >>=-ne-fuel 0 (lift (prepare_client chain params m p)) _ rest
          (Takes-lift _ (prepare_client-ne-fuel m p))
          (λ p' rest' took'. prepare_loop-ne-fuel fuel p' rest' (omega arith))
    | interaction m ↦ λ rest took.
        >>=-ne-fuel 0 (lift (prepare_interaction chain m p)) _ rest
          (Takes-lift _ (prepare_interaction-ne-fuel m p))
          (λ p' rest' took'. prepare_loop-ne-fuel fuel p' rest' (omega arith))
  ])
