-- ===== src/Message/Prepare/RoundTrip.antt =====
-- What the secondary decodes of the prepare messages that the primary encodes.
use diablo.Prelude.{
  Bytes, ℕ, ◌%◌, ◌^◌, ◌≤◌, ◌≡◌, refl, sym, ap, ◌↔◌, none, [], ◌∷◌, ℤ, pos, negsuc, wrap, wrap-lt,
  Below, Within, length, All, arith,
}
use diablo.Float.{IsFloat64}
use diablo.Wire.Errors.{address_too_long}
use diablo.Wire.Sink.{frame, frame-append}
use diablo.Wire.Little.{byte, little}
use diablo.Wire.Source.{Parser}
use diablo.Wire.Parses.{
  Parses, Parses-bind, Parses-pure, Parses-byte, Parses-little, Parses-read_full,
}
use diablo.Message.Strings.{
  IsShort, string_chunks, first_long_iff, Parses-strings, Transmits, Decides, guarded-Decides,
  guarded-Transmits,
}
use diablo.Message.Prepare.{
  MsgPrepareClient, MsgPrepareInteraction, done, client, interaction, check_client, client_chunks,
  check_interaction, interaction_chunks, encode_prepare, decode_prepare_type, decode_prepare,
  type_done, type_client, type_interaction,
}

short_mod : {n : ℕ} → n ≤ 65535 → n % 2 ^ 16 ≡ n
short_mod h = omega arith

abbrev pub FitsClient : MsgPrepareClient → Type 0
FitsClient m = (length m.view ≤ 65535) × All IsShort m.view × Below (2 ^ 32) m.index

-- What arrives of a client message and of an interaction message.
unfoldable pub received_client : MsgPrepareClient → MsgPrepareClient
received_client m = record m { index = pos (wrap (2 ^ 32) m.index) }

unfoldable pub received_interaction : MsgPrepareInteraction → MsgPrepareInteraction
received_interaction m = record m {
  index = pos (wrap (2 ^ 32) m.index % 256);
  ikind = pos (wrap 256 m.ikind);
}

pub check_client_iff : (m : MsgPrepareClient) → (check_client m ≡ none) ↔ FitsClient m
unfolding check_client
check_client_iff m = ground (arith, first_long_iff address_too_long m.view)

pub reads_client :
    (m : MsgPrepareClient)
    → FitsClient m
    → Parses decode_prepare (frame (client_chunks m)) (client (received_client m))
unfolding client_chunks decode_prepare decode_prepare_type received_client
reads_client m h =
    rw (frame-append (string_chunks m.view) (little 4 (wrap (2 ^ 32) m.index) ∷ [])) (
      Parses-bind _ (Parses-byte type_client (omega arith)) (
        Parses-bind _ (Parses-little 2 (length m.view % 2 ^ 16) (omega arith)) (
          Parses-bind _ (rw (short_mod h.0) (Parses-strings m.view h.1))
            (Parses-bind _ (Parses-little 4 _ (wrap-lt _ _ (omega arith))) (Parses-pure _)))))

abbrev pub FitsInteraction : MsgPrepareInteraction → Type 0
FitsInteraction m = Below (2 ^ 32) m.index × Below 256 m.ikind × (length m.payload ≤ 65535)

pub check_interaction_iff :
    (m : MsgPrepareInteraction) → (check_interaction m ≡ none) ↔ FitsInteraction m
unfolding check_interaction
check_interaction_iff m = ground arith

pub reads_interaction :
    (m : MsgPrepareInteraction)
    → IsFloat64 m.time
    → FitsInteraction m
    → Parses decode_prepare (frame (interaction_chunks m)) (interaction (received_interaction m))
unfolding interaction_chunks decode_prepare decode_prepare_type received_interaction
reads_interaction m w h = Parses-bind _ (Parses-byte type_interaction (omega arith)) (
    Parses-bind _ (Parses-little 4 _ (wrap-lt _ _ (omega arith))) (
      Parses-bind _ (Parses-byte _ (wrap-lt 256 m.ikind (omega arith))) (
        Parses-bind _ (Parses-little 8 _ w) (
          Parses-bind _ (Parses-little 2 (length m.payload % 2 ^ 16) (omega arith))
            (Parses-bind _ (Parses-read_full _ m.payload (sym (short_mod h.2))) (Parses-pure _))))))

-- The end marker is always written, and read back as itself.
pub encode_done-decode_prepare : Transmits (encode_prepare done) decode_prepare done
unfolding encode_prepare decode_prepare decode_prepare_type
encode_done-decode_prepare =
    guarded-Transmits none (byte type_done ∷ []) refl
      (Parses-bind _ (Parses-byte type_done (omega arith)) (Parses-pure done))

-- A client message is transmitted if its view has at most 65535 addresses of at most 255 bytes and
-- its index is below 2 ^ 32, and refused before a byte is written otherwise. The secondary reads the
-- same view, and the index modulo 2 ^ 32.
encode_client-decode_prepare :
    (m : MsgPrepareClient)
    → Decides (FitsClient m) (encode_prepare (client m)) decode_prepare (client (received_client m))
unfolding encode_prepare
encode_client-decode_prepare m =
    guarded-Decides (check_client m) (client_chunks m) (check_client_iff m) (reads_client m)

-- An interaction message whose time has 64 bits is transmitted if its index is below 2 ^ 32, its
-- kind below 256 and its payload at most 65535 bytes, and refused before a byte is written
-- otherwise. The secondary reads the same time and payload, and the low byte of the index and of
-- the kind.
pub encode_interaction-decode_prepare :
    (m : MsgPrepareInteraction)
    → IsFloat64 m.time
    → Decides
        (FitsInteraction m)
        (encode_prepare (interaction m))
        decode_prepare
        (interaction (received_interaction m))
unfolding encode_prepare
encode_interaction-decode_prepare m w =
    guarded-Decides (check_interaction m) (interaction_chunks m) (check_interaction_iff m)
      (reads_interaction m w)

pub received_client-Within :
    (m : MsgPrepareClient) → Within (2 ^ 32) m.index → received_client m ≡ m
unfolding received_client
received_client-Within m h = ground arith

wrap_byte : (i : ℤ) → pos (wrap (2 ^ 32) i % 256) ≡ i → Within 256 i
wrap_byte (pos n) e = ground arith
wrap_byte (negsuc n) e = cc

wrap_kind : (i : ℤ) → pos (wrap 256 i) ≡ i → Within 256 i
wrap_kind (pos n) e = ground arith
wrap_kind (negsuc n) e = cc

-- What the secondary reads of an interaction message is what the primary meant exactly when both the
-- client index and the interaction kind lie between 0 and 255.
pub received_interaction-eq_iff :
    (m : MsgPrepareInteraction)
    → (received_interaction m ≡ m) ↔ (Within 256 m.index × Within 256 m.ikind)
unfolding received_interaction
received_interaction-eq_iff m = (
  λ e. (
    wrap_byte m.index (ap (λ (r : MsgPrepareInteraction). r.index) e),
    wrap_kind m.ikind (ap (λ (r : MsgPrepareInteraction). r.ikind) e),
  ),
  λ h. ground arith,
)

Parses-unique {ℓ} :
    {A : Type ℓ} {p : Parser A} {bs : Bytes} {a b : A} → Parses p bs a → Parses p bs b → a ≡ b
Parses-unique h k = let e = h.run [] in let e' = k.run [] in cc

-- Of an interaction message that `encode` lets through, with a time of 64 bits, the secondary reads
-- the bytes back as the same message exactly when both the client index and the interaction kind lie
-- between 0 and 255.
pub interaction_chunks-Parses_iff :
    (m : MsgPrepareInteraction)
    → IsFloat64 m.time
    → FitsInteraction m
    → Parses decode_prepare (frame (interaction_chunks m)) (interaction m)
      ↔ (Within 256 m.index × Within 256 m.ikind)
interaction_chunks-Parses_iff m w h = (
  λ back.
      let e : interaction (received_interaction m) ≡ interaction m =
        Parses-unique (reads_interaction m w h) back in
      (received_interaction-eq_iff m).0 (cc e),
  λ within. rw ((received_interaction-eq_iff m).1 within) at (reads_interaction m w h),
)
