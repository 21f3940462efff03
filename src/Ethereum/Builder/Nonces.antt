-- ===== src/Ethereum/Builder/Nonces.antt =====
-- The nonces of the transactions that the builder of blockchains/nethereum/builder.go encodes.
use diablo.Prelude.{
  true, false, get_elem?-set_self, get_elem?-set_other, ℕ, zero, suc, ◌+◌, ◌%◌, ◌^◌, ◌<◌, ◌≡◌, ◌≢◌,
  refl, ap, ◌∙◌, Option, none, some, List, [], ◌∷◌, Bytes, ℤ, pos, wrap, wrap-lt, length, get_elem?,
  ◌==◌, if◌then◌else◌, arith, Bool-cases, inl, inr, Option-cases, get_elem?-lt,
}
use mathlib.Core.List.{append-nil}
use diablo.Wire.Errors.{Error, Result, ok, err, index_out_of_range}
use diablo.Wire.Sink.{frame}
use diablo.Wire.Parses.{Parses}
use diablo.Ethereum.{Library, IsDocumented}
use diablo.Ethereum.Transaction.{
  TransferTransaction, InvokeTransaction, Decoded, transfer, invoke, check_transfer,
  transfer_chunks, check_invoke, invoke_chunks, decode_transaction,
}
use diablo.Ethereum.Transaction.RoundTrip.{
  check_transfer_iff, check_invoke_iff, reads_transfer, reads_invoke,
}
use diablo.Ethereum.Builder.{
  Reply, Account, Contract, Builder, buffered, transfer_payload, invoke_payload, arguments, encoded,
  advance, encode_transfer, encode_invoke,
}

buffered-ok :
    (check : Option Error) (ps : List Bytes) {payload : Bytes}
    → buffered check ps ≡ ok payload
    → (check ≡ none) × (frame ps ≡ payload)
unfolding buffered
buffered-ok none ps h = (refl, cc)
buffered-ok (some e) ps h = cc

-- The first `k` nonces from `n` on, words of 64 bits.
abbrev pub count_from : ℕ → ℕ → List (Option ℕ)
count_from n zero = []
count_from n (suc k) = some n ∷ count_from ((n + 1) % 2 ^ 64) k

module _ (eth : Library) where
  abbrev advanced : Account eth → Account eth
  advanced a = record a { nonce = (a.nonce + 1) % 2 ^ 64 }

  advance_self :
      (b : Builder eth) (a : Account eth) (i : ℕ)
      → get_elem? b.premade i ≡ some a
      → get_elem? (advance eth i a b).premade i ≡ some (advanced a)
  unfolding advance
  advance_self b a i h = get_elem?-set_self b.premade i (advanced a) (get_elem?-lt b.premade i h)

  advance_other :
      (b : Builder eth) (a : Account eth) (i j : ℕ)
      → i ≢ j
      → get_elem? (advance eth i a b).premade j ≡ get_elem? b.premade j
  unfolding advance
  advance_other b a i j h = get_elem?-set_other b.premade i j (advanced a) h

  -- A call of `EncodeTransfer` or `EncodeInvoke`, with the account that pays.
  pub data Call : Type 0 where
    transfer_call : ℤ → ℕ → eth.Address → Call
    invoke_call : ℕ → Contract eth → Reply → Call

  abbrev pub payer : Call → ℕ
  payer (transfer_call amount from to) = from
  payer (invoke_call from to reply) = from

  abbrev nonce_of : Decoded eth → ℕ
  nonce_of (transfer t) = t.nonce
  nonce_of (invoke t) = t.nonce

  abbrev nonce_read : Result (Decoded eth × Bytes) → Option ℕ
  nonce_read (ok (t, rest)) = some (nonce_of t)
  nonce_read (err e) = none

  -- The nonce that a client decodes of a payload.
  abbrev pub nonce_in : Bytes → Option ℕ
  nonce_in payload = nonce_read (decode_transaction eth payload)

  nonce_in-Parses :
      (ps : List Bytes) (t : Decoded eth) {payload : Bytes}
      → Parses (decode_transaction eth) (frame ps) t
      → frame ps ≡ payload
      → nonce_in payload ≡ some (nonce_of t)
  nonce_in-Parses ps t h e = let read = rw (append-nil (frame ps), e) at (h.run []) in rw read refl

  module _ (doc : IsDocumented eth) where
    pub transfer_payload-nonce :
        (amount : ℤ) (a : Account eth) (to : eth.Address) (payload : Bytes)
        → a.nonce < 2 ^ 64
        → transfer_payload eth amount a to ≡ ok payload
        → nonce_in payload ≡ some a.nonce
    unfolding transfer_payload
    transfer_payload-nonce amount a to payload h e =
        let t : TransferTransaction eth = record {
          nonce = a.nonce;
          amount = wrap (2 ^ 64) amount;
          from = a.private;
          to = to;
        } in
        let (free, bytes) = buffered-ok (check_transfer eth t) (transfer_chunks eth t) e in
        nonce_in-Parses (transfer_chunks eth t) (transfer t)
          (reads_transfer eth doc t (h, wrap-lt (2 ^ 64) amount (omega arith))
            ((check_transfer_iff eth t).0 free))
          bytes

    invoke_payload-nonce :
        (args : Result Bytes) (a : Account eth) (to : Contract eth) (payload : Bytes)
        → a.nonce < 2 ^ 64
        → invoke_payload eth args a to ≡ ok payload
        → nonce_in payload ≡ some a.nonce
    unfolding invoke_payload
    invoke_payload-nonce (err e') a to payload h e = cc
    invoke_payload-nonce (ok args) a to payload h e =
        let t : InvokeTransaction eth = record {
          nonce = a.nonce;
          from = a.private;
          appid = to.appid;
          payload = args;
        } in
        let (free, bytes) = buffered-ok (check_invoke eth t) (invoke_chunks eth t) e in
        nonce_in-Parses (invoke_chunks eth t) (invoke t)
          (reads_invoke eth doc t h ((check_invoke_iff eth t).0 free)) bytes

  -- The nonces of the payloads that the account at `i` pays for.
  abbrev pub nonces_of : ℕ → List (ℕ × Result Bytes) → List (Option ℕ)
  nonces_of i [] = []
  nonces_of i ((j, err e) ∷ outs) = nonces_of i outs
  nonces_of i ((j, ok p) ∷ outs) =
      let rest = nonces_of i outs in if j == i then nonce_in p ∷ rest else rest

  abbrev AreFrom : ℕ → ℕ → List (ℕ × Result Bytes) → Type 0
  AreFrom n i outs = nonces_of i outs ≡ count_from n (length (nonces_of i outs))

  AreFrom-own :
      (n i j : ℕ) (p : Bytes) (outs : List (ℕ × Result Bytes))
      → (j == i) ≡ true
      → nonce_in p ≡ some n
      → AreFrom ((n + 1) % 2 ^ 64) i outs
      → AreFrom n i ((j, ok p) ∷ outs)
  AreFrom-own n i j p outs same first rest =
      rw (same, first) (ap (λ (l : List (Option ℕ)). some n ∷ l) rest)

  AreFrom-other :
      (n i j : ℕ) (p : Bytes) (outs : List (ℕ × Result Bytes))
      → (j == i) ≡ false
      → AreFrom n i outs
      → AreFrom n i ((j, ok p) ∷ outs)
  AreFrom-other n i j p outs other rest = rw other rest

  module _ (base64 : Bytes → Result Bytes) where
    unfoldable pub encode_call : Call → Builder eth → Result Bytes × Builder eth
    encode_call (transfer_call amount from to) b = encode_transfer eth amount from to b
    encode_call (invoke_call from to reply) b = encode_invoke eth base64 from to reply b

    -- What each call of a sequence returns, with the account that pays.
    unfoldable pub encode_all : List Call → Builder eth → List (ℕ × Result Bytes)
    encode_all [] b = []
    encode_all (c ∷ cs) b = (payer c, (encode_call c b).0) ∷ encode_all cs (encode_call c b).1

    payload_of : Call → Account eth → Result Bytes
    payload_of (transfer_call amount from to) a = transfer_payload eth amount a to
    payload_of (invoke_call from to reply) a =
        invoke_payload eth (arguments base64 to.appli reply) a to

    encode_call-paid :
        (c : Call) (b : Builder eth) (a : Account eth)
        → get_elem? b.premade (payer c) ≡ some a
        → encode_call c b ≡ encoded eth (payer c) a (payload_of c a) b
    unfolding encode_call payload_of encode_transfer encode_invoke
    encode_call-paid (transfer_call amount from to) b a h = rw (h, encode_transfer) refl
    encode_call-paid (invoke_call from to reply) b a h = rw (h, encode_invoke) refl

    encode_call-unpaid :
        (c : Call) (b : Builder eth)
        → get_elem? b.premade (payer c) ≡ none
        → (e : Error) × (encode_call c b ≡ (err e, b))
    unfolding encode_call encode_transfer encode_invoke
    encode_call-unpaid (transfer_call amount from to) b h =
        (index_out_of_range (pos from), rw (h, encode_transfer) refl)
    encode_call-unpaid (invoke_call from to reply) b h =
        (index_out_of_range (pos from), rw (h, encode_invoke) refl)

    module _ (doc : IsDocumented eth) where
      payload_of-nonce :
          (c : Call) (a : Account eth) (payload : Bytes)
          → a.nonce < 2 ^ 64
          → payload_of c a ≡ ok payload
          → nonce_in payload ≡ some a.nonce
      unfolding payload_of
      payload_of-nonce (transfer_call amount from to) a payload h e =
          transfer_payload-nonce doc amount a to payload h e
      payload_of-nonce (invoke_call from to reply) a payload h e =
          invoke_payload-nonce doc _ a to payload h e

      Counts : ℕ → List Call → Type 0
      Counts i cs =
          (b : Builder eth) (a : Account eth)
          → get_elem? b.premade i ≡ some a
          → a.nonce < 2 ^ 64
          → AreFrom a.nonce i (encode_all cs b)

      -- The account `a'` at `payer c`, and what was made of its payload.
      call_in_order :
          (c : Call) (cs : List Call) (b : Builder eth) (i : ℕ) (a a' : Account eth)
          → get_elem? b.premade i ≡ some a
          → a.nonce < 2 ^ 64
          → get_elem? b.premade (payer c) ≡ some a'
          → Counts i cs
          → (r : Result Bytes) → payload_of c a' ≡ r
          → AreFrom a.nonce i (encode_all (c ∷ cs) b)
      unfolding encode_all encoded Counts
      call_in_order c cs b i a a' h w there ih (err e) made =
          rw (encode_call-paid c b a' there, made, encode_all, encoded) (ih b a h w)
      call_in_order c cs b i a a' h w there ih (ok p) made = elim (Bool-cases (payer c == i)) [
        | inl same ↦
            let paid_by : payer c ≡ i = ground arith in
            let one : a' ≡ a = ground arith in
            rw (encode_call-paid c b a' there, made, encode_all, encoded)
              (AreFrom-own a.nonce i (payer c) p (encode_all cs (advance eth (payer c) a' b)) same
                (payload_of-nonce c a p w (rw one at made))
                (ih (advance eth (payer c) a' b) (advanced a)
                  (rw (paid_by, one) (advance_self b a i h)) (omega arith)))
        | inr other ↦
            rw (encode_call-paid c b a' there, made, encode_all, encoded)
              (AreFrom-other a.nonce i (payer c) p (encode_all cs (advance eth (payer c) a' b))
                other
                (ih (advance eth (payer c) a' b) a
                  (advance_other b a' (payer c) i (λ e. ground arith) ∙ h) w))
      ]

      -- Whatever transfers and invocations are encoded, for whatever accounts: the payloads of an account
      -- of the builder carry the nonces from its own on, one after the other and none twice or left
      -- out; a call that fails takes none.
      pub encode_all-nonces :
          (cs : List Call) (b : Builder eth) (i : ℕ) (a : Account eth)
          → get_elem? b.premade i ≡ some a
          → a.nonce < 2 ^ 64
          → nonces_of i (encode_all cs b)
            ≡ count_from a.nonce (length (nonces_of i (encode_all cs b)))
      unfolding encode_all Counts
      encode_all-nonces [] b i a h w = refl
      encode_all-nonces (c ∷ cs) b i a h w = elim (Option-cases (get_elem? b.premade (payer c))) [
        | inl gone ↦
            let (e, same) = encode_call-unpaid c b gone in
            rw (same, encode_all) (encode_all-nonces cs b i a h w)
        | inr (a', there) ↦
            call_in_order c cs b i a a' h w there
              (λ b' a'' h' w'. encode_all-nonces cs b' i a'' h' w') (payload_of c a') refl
      ]
