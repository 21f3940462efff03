-- ===== src/Secondary/Prepared.antt =====
-- What `prepare` makes of messages in a row.
use diablo.Prelude.{
  ℕ, zero, suc, ◌<◌, ◌≡◌, refl, ◌∙◌, List, [], ◌∷◌, ◌++◌, Bytes, length, Map, All, arith,
}
use diablo.Wire.Errors.{Result, ok, err, and_then}
use diablo.Wire.Source.{◌>>=◌, pure, lift}
use diablo.Wire.Parses.{>>=-run, >>=-lift}
use diablo.Message.Prepare.{MsgPrepare, done, client, interaction}
use diablo.Message.Prepare.Stream.{IsWhole, message_bytes, prepare_stream, reads_whole, reads_end}
use diablo.Secondary.{Blockchain, Preparation, prepare_client, prepare_interaction, prepare_loop}
use mathlib.Core.List.{append_assoc}

module _ (chain : Blockchain) (params : Map Bytes Bytes) where
  -- One message, and messages one after the other, up to the first that fails.
  unfoldable pub handle : MsgPrepare → Preparation chain → Result (Preparation chain)
  handle done p = ok p
  handle (client m) p = prepare_client chain params m p
  handle (interaction m) p = prepare_interaction chain m p

  unfoldable pub handle_all : List MsgPrepare → Preparation chain → Result (Preparation chain)
  handle_all [] p = ok p
  handle_all (m ∷ ms) p = and_then (handle m p) (λ p'. handle_all ms p')

  rest_of :
      (ms : List MsgPrepare) (rest : Bytes) (r : Result (Preparation chain)) (fuel : ℕ)
      → ((p : Preparation chain)
          → prepare_loop chain fuel params p (prepare_stream ms ++ rest)
            ≡ and_then (handle_all ms p) (λ p'. ok (p', rest)))
      → (lift r >>= (λ p. prepare_loop chain fuel params p)) (prepare_stream ms ++ rest)
        ≡ and_then (and_then r (λ p. handle_all ms p)) (λ p'. ok (p', rest))
  rest_of ms rest (ok p) fuel h = >>=-lift (ok p) _ _ ∙ h p
  rest_of ms rest (err e) fuel h = >>=-lift (err e) _ _

  pub prepare_loop-handle_all :
      (fuel : ℕ) (ms : List MsgPrepare) (p : Preparation chain) (rest : Bytes)
      → length ms < fuel
      → All IsWhole ms
      → prepare_loop chain fuel params p (prepare_stream ms ++ rest)
        ≡ and_then (handle_all ms p) (λ p'. ok (p', rest))
  unfolding prepare_loop handle_all handle
  prepare_loop-handle_all zero ms p rest h whole = elim h [ ]
  prepare_loop-handle_all (suc fuel) [] p rest h whole =
      >>=-run _ rest reads_end ∙ unfold pure in refl
  prepare_loop-handle_all (suc fuel) (done ∷ ms) p rest h whole = absurd whole.0
  prepare_loop-handle_all (suc fuel) (client m ∷ ms) p rest h whole =
      rw (append_assoc (message_bytes (client m)) (prepare_stream ms) rest) (
        >>=-run _ (prepare_stream ms ++ rest) (reads_whole (client m) whole.0)
        ∙ rest_of ms rest (prepare_client chain params m p) fuel
            (λ p'. prepare_loop-handle_all fuel ms p' rest (omega arith) whole.1))
  prepare_loop-handle_all (suc fuel) (interaction m ∷ ms) p rest h whole =
      rw (append_assoc (message_bytes (interaction m)) (prepare_stream ms) rest) (
        >>=-run _ (prepare_stream ms ++ rest) (reads_whole (interaction m) whole.0)
        ∙ rest_of ms rest (prepare_interaction chain m p) fuel
            (λ p'. prepare_loop-handle_all fuel ms p' rest (omega arith) whole.1))
