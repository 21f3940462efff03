-- ===== src/Message/Params/RoundTrip.antt =====
-- The parameters that one side encodes are those that the other side decodes.
use diablo.Prelude.{
  ℕ, ◌≤◌, ◌≡◌, refl, ◌↔◌, none, [], ◌∷◌, ◌++◌, Bytes, Map, insert, insert_all, insert_all-distinct,
  bytes_key, DistinctKeys, length, All, arith,
}
use diablo.Float.{IsFloat64}
use diablo.Wire.Sink.{frame, frame-append}
use diablo.Wire.Source.{first}
use diablo.Wire.Little.{byte, little}
use diablo.Wire.Parses.{
  Parses, Parses-bind, Parses-bind_pure, Parses-pure, Parses-byte, Parses-little, Parses-read_full,
}
use diablo.Wire.Errors.{tag_too_long}
use diablo.Message.Strings.{
  IsShort, first_long_iff, Parses-bind_string, Parses-strings, Decides, guarded-Decides,
}
use diablo.Message.Params.{
  MsgPrimaryParameters, MsgSecondaryParameters, first_long_param, check_primary, param_chunks,
  primary_chunks, encode_primary, read_params, decode_primary, check_secondary, secondary_chunks,
  encode_secondary, decode_secondary, second,
}

abbrev pub FitsSecondary : MsgSecondaryParameters → Type 0
FitsSecondary m = (length m.tags ≤ 255) × All IsShort m.tags

check_secondary_iff : (m : MsgSecondaryParameters) → (check_secondary m ≡ none) ↔ FitsSecondary m
unfolding check_secondary
check_secondary_iff m = ground (arith, first_long_iff tag_too_long m.tags)

reads_secondary :
    (m : MsgSecondaryParameters)
    → FitsSecondary m
    → Parses decode_secondary (frame (secondary_chunks m)) m
unfolding secondary_chunks decode_secondary
reads_secondary m h =
    Parses-bind _ (Parses-byte (length m.tags) (omega arith))
      (Parses-bind_pure (λ tags. record { tags = tags }) (Parses-strings m.tags h.1))

-- The tags that a secondary sends are the tags that the primary reads, if there are at most 255
-- of at most 255 bytes each; any other list of tags is refused before a byte is written.
pub encode_secondary-decode_secondary :
    (m : MsgSecondaryParameters) → Decides (FitsSecondary m) (encode_secondary m) decode_secondary m
unfolding encode_secondary
encode_secondary-decode_secondary m =
    guarded-Decides (check_secondary m) (secondary_chunks m) (check_secondary_iff m)
      (reads_secondary m)

abbrev pub IsShortParam : Bytes × Bytes → Type 0
IsShortParam p = IsShort p.0 × IsShort p.1

abbrev pub FitsPrimary : MsgPrimaryParameters → Type 0
FitsPrimary m = IsShort m.sysname × (length m.chain_params ≤ 255) × All IsShortParam m.chain_params

-- What Go's types say of every message: a map holds no key twice, and floats have 64 bits.
pub record IsPrimaryParameters (m : MsgPrimaryParameters) : Type 0 where
  pub keys : DistinctKeys m.chain_params
  pub delay : IsFloat64 m.max_delay
  pub skew : IsFloat64 m.max_skew

first_long_param_iff : (m : Map Bytes Bytes) → (first_long_param m ≡ none) ↔ All IsShortParam m
unfolding first_long_param
first_long_param_iff [] = (λ _. tt, λ _. refl)
first_long_param_iff ((k, v) ∷ m) = ground (arith, first_long_param_iff m)

check_primary_iff : (m : MsgPrimaryParameters) → (check_primary m ≡ none) ↔ FitsPrimary m
unfolding check_primary
check_primary_iff m = ground (arith, first_long_param_iff m.chain_params)

two_bytes :
    (a b : ℕ) → a ≤ 255 → b ≤ 255 → (a ≡ first (byte a ++ byte b)) × (b ≡ second (byte a ++ byte b))
unfolding byte
two_bytes a b ha hb = (omega arith, omega arith)

reads_params :
    (m l : Map Bytes Bytes)
    → All IsShortParam l
    → Parses (read_params (length l) m) (frame (param_chunks l)) (insert_all m l)
unfolding read_params param_chunks insert_all
reads_params m [] h = Parses-pure m
reads_params m ((k, v) ∷ l) h =
    Parses-bind _ (Parses-read_full 2 (byte (length k) ++ byte (length v)) (unfold byte in refl)) (
      Parses-bind _ (Parses-read_full _ k (two_bytes _ _ h.0.0 h.0.1).0) (
        Parses-bind _ (Parses-read_full _ v (two_bytes _ _ h.0.0 h.0.1).1)
          (reads_params (insert k v m) l h.1)))

reads_primary :
    (m : MsgPrimaryParameters)
    → IsPrimaryParameters m
    → FitsPrimary m
    → Parses decode_primary (frame (primary_chunks m)) m
unfolding primary_chunks decode_primary
reads_primary m w h =
    rw
      (frame-append (param_chunks m.chain_params) (little 8 m.max_delay ∷ little 8 m.max_skew ∷ []))
      (Parses-bind_string m.sysname _ h.0 (
        Parses-bind _ (Parses-byte _ (omega arith)) (
          Parses-bind _
            (rw (insert_all-distinct [] m.chain_params w.keys) at
              (reads_params [] m.chain_params h.2))
            (Parses-bind _ (Parses-little 8 m.max_delay w.delay)
              (Parses-bind _ (Parses-little 8 m.max_skew w.skew) (Parses-pure m))))))

-- For parameters whose map holds no key twice and whose floats have 64 bits: they are
-- transmitted, with the chain parameters in the order in which they were written, if the name of
-- the interface, every parameter name and every value has at most 255 bytes and there are at most
-- 255 parameters, and refused before a byte is written otherwise.
pub encode_primary-decode_primary :
    (m : MsgPrimaryParameters)
    → IsPrimaryParameters m
    → Decides (FitsPrimary m) (encode_primary m) decode_primary m
unfolding encode_primary
encode_primary-decode_primary m w =
    guarded-Decides (check_primary m) (primary_chunks m) (check_primary_iff m) (reads_primary m w)
