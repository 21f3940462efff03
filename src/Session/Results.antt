-- ===== src/Session/Results.antt =====
-- The end of a benchmark: `stop` of core/nsecondary.go, and `collect` of core/nprimary.go at the other
-- end of the connection.
use diablo.Prelude.{
  ℕ, ◌≤◌, ◌≡◌, none, List, [], ◌∷◌, ◌++◌, Bytes, ℤ, Within-Below, length, length-append, map, All,
  arith, refl,
}
use diablo.Float.{Float64}
use diablo.Wire.Errors.{ok}
use diablo.Wire.Sink.{Sink, sent, sent-sent, frame, then_write}
use diablo.Wire.Little.{byte}
use diablo.Message.Strings.{guarded-writes}
use diablo.Message.Outcome.{
  MsgResultInteraction, interaction, encode_result, result_chunks, check_result, type_done,
}
use diablo.Message.Outcome.RoundTrip.{check_result_iff}
use diablo.Report.Grouping.{interactions_of}
use diablo.Report.{SecondaryResult}
use diablo.Primary.{RemoteClient, RemoteSecondary}
use diablo.Primary.Collect.{collect}
use diablo.Primary.Collect.Reads.{IsPlaced, stream, reported, collect-reported}
use diablo.Secondary.{Blockchain, RuntimeInteraction}
use diablo.Secondary.Lifecycle.{Progress, result_message, stop}

writes_result :
    (clients : List RemoteClient) (m : MsgResultInteraction) (s : Sink)
    → IsPlaced clients m
    → length (frame (result_chunks m)) ≤ s.room
    → encode_result (interaction m) s ≡ (none, sent (frame (result_chunks m)) s)
unfolding encode_result
writes_result clients m s h fits =
    guarded-writes (check_result m) (result_chunks m) s
      ((check_result_iff m).1 (Within-Below _ _ h.client, Within-Below _ _ h.ikind)) fits

module _ (chain : Blockchain) (seconds : ℕ → Float64) where
  -- The results that `stop` sends.
  abbrev pub results : List (RuntimeInteraction chain × Progress) → List MsgResultInteraction
  results xs = map (result_message chain seconds) xs

  stop-stream :
      (clients : List RemoteClient) (xs : List (RuntimeInteraction chain × Progress)) (s : Sink)
      → All (IsPlaced clients) (results xs)
      → length (stream (results xs)) ≤ s.room
      → stop chain seconds xs s ≡ (none, sent (stream (results xs)) s)
  unfolding stop encode_result then_write
  stop-stream clients [] s h fits = guarded-writes none (byte type_done ∷ []) s refl fits
  stop-stream clients (x ∷ xs) s h fits =
      let m = result_message chain seconds x in
      let p = frame (result_chunks m) in
      let n = length-append p (stream (results xs)) in
      let e = writes_result clients m s h.0 (omega arith) in
      rw (e, ← sent-sent p (stream (results xs)) s)
        (stop-stream clients xs (sent p s) h.1 (omega arith))

-- If every result that `stop` sends names a client of the primary and a kind of that client, by
-- numbers that fit the format, and the connection takes the bytes, then `stop` succeeds, and `collect`
-- at the other end takes exactly its bytes and records for every client its own results, in the order
-- in which the secondary sent them.
pub stop-collect :
    (chain : Blockchain) (seconds : ℕ → Float64) (s : RemoteSecondary)
    (xs : List (RuntimeInteraction chain × Progress)) (out : Sink) (rest : Bytes)
    → All (IsPlaced s.clients) (results chain seconds xs)
    → length (stream (results chain seconds xs)) ≤ out.room
    → (stop chain seconds xs out ≡ (none, sent (stream (results chain seconds xs)) out))
      × (r : SecondaryResult) × (collect s (stream (results chain seconds xs) ++ rest)
          ≡ ok (r, rest))
      × ((id : ℤ) → interactions_of r id ≡ reported s.clients (results chain seconds xs) id)
stop-collect chain seconds s xs out rest h fits =
    let (r, e, k) = collect-reported s (results chain seconds xs) rest h in
    (stop-stream chain seconds s.clients xs out h fits, r, e, k)
