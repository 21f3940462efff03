-- ===== src/Message/Params.antt =====
-- core/encoding.go: the messages that open a connection, `msgPrimaryParameters` and
-- `msgSecondaryParameters`.
pub mod RoundTrip
use diablo.Prelude.{
  ℕ, zero, suc, ◌++◌, Option, none, some, List, [], ◌∷◌, Bytes, bytes_key, Map, insert, length, ltb,
  if◌then◌else◌, get_elem?,
}
use diablo.Float.{Float64}
use diablo.Wire.Errors.{
  Error, interface_name_too_long, too_many_parameters, parameter_name_too_long,
  parameter_value_too_long, too_many_tags, tag_too_long,
}
use diablo.Wire.Sink.{Writer, guarded}
use diablo.Wire.Source.{Parser, ◌>>=◌, pure, first, read_byte, read_full, read_short_string}
use diablo.Wire.Little.{byte, little, read_little}
use diablo.Message.Strings.{string_chunks, read_strings, first_long}

-- The chain parameters stand in the order in which `range` visits the map.
pub record MsgPrimaryParameters : Type 0 where
  pub sysname : Bytes
  pub chain_params : Map Bytes Bytes
  pub max_delay : Float64
  pub max_skew : Float64

pub record MsgSecondaryParameters : Type 0 where
  pub tags : List Bytes

-- The loop of `encode` that looks for a name or a value of more than 255 bytes.
unfoldable pub first_long_param : Map Bytes Bytes → Option Error
first_long_param [] = none
first_long_param ((key, value) ∷ m) =
    if ltb 255 (length key)
    then some (parameter_name_too_long key)
    else if ltb 255 (length value)
    then some (parameter_value_too_long value)
    else first_long_param m

unfoldable pub check_primary : MsgPrimaryParameters → Option Error
unfolding first_long_param
check_primary m =
    if ltb 255 (length m.sysname)
    then some (interface_name_too_long m.sysname)
    else if ltb 255 (length m.chain_params)
    then some (too_many_parameters (length m.chain_params))
    else first_long_param m.chain_params

unfoldable pub param_chunks : Map Bytes Bytes → List Bytes
param_chunks [] = []
param_chunks ((key, value) ∷ m) =
    (byte (length key) ++ byte (length value)) ∷ key ∷ value ∷ param_chunks m

unfoldable pub primary_chunks : MsgPrimaryParameters → List Bytes
primary_chunks m =
    byte (length m.sysname)
    ∷ m.sysname
    ∷ byte (length m.chain_params)
    ∷ (param_chunks m.chain_params ++ little 8 m.max_delay ∷ little 8 m.max_skew ∷ [])

unfoldable pub encode_primary : MsgPrimaryParameters → Writer
encode_primary m = guarded (check_primary m) (primary_chunks m)

-- `buf[1]`
abbrev pub second : Bytes → ℕ
second [] = 0
second (b ∷ bs) = first bs

-- The loop that reads `n` parameters into the map.
unfoldable pub read_params : ℕ → Map Bytes Bytes → Parser (Map Bytes Bytes)
read_params zero m = pure m
read_params (suc n) m = do
  buf ← read_full 2
  key ← read_full (first buf)
  value ← read_full (second buf)
  read_params n (insert key value m)

unfoldable pub decode_primary : Parser MsgPrimaryParameters
decode_primary = do
  sysname ← read_short_string
  n ← read_byte
  params ← read_params n []
  delay ← read_little 8
  skew ← read_little 8
  pure (record { sysname = sysname; chain_params = params; max_delay = delay; max_skew = skew })

unfoldable pub check_secondary : MsgSecondaryParameters → Option Error
unfolding first_long
check_secondary m =
    if ltb 255 (length m.tags)
    then some (too_many_tags (length m.tags))
    else first_long tag_too_long m.tags

unfoldable pub secondary_chunks : MsgSecondaryParameters → List Bytes
secondary_chunks m = byte (length m.tags) ∷ string_chunks m.tags

unfoldable pub encode_secondary : MsgSecondaryParameters → Writer
encode_secondary m = guarded (check_secondary m) (secondary_chunks m)

unfoldable pub decode_secondary : Parser MsgSecondaryParameters
decode_secondary = do n ← read_byte; tags ← read_strings n; pure (record { tags = tags })
