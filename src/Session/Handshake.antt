-- ===== src/Session/Handshake.antt =====
-- The first messages of a connection: `init` of core/net.go at both ends, `newRuntime` of
-- core/nsecondary.go and `newRemoteSecondary` of core/nprimary.go.
use diablo.Prelude.{
  ◌≤◌, ◌≡◌, refl, none, some, List, [], ◌∷◌, ◌++◌, Bytes, bytes_key, Map, lookup, length, inl, inr,
}
use diablo.Wire.Errors.{Result, ok, err, and_then, unknown_interface}
use diablo.Wire.Sink.{Sink, Writer, sent}
use diablo.Wire.Source.{Parser}
use diablo.Message.Strings.{Decides, Transmits}
use diablo.Message.Params.{
  MsgPrimaryParameters, MsgSecondaryParameters, encode_primary, decode_primary, encode_secondary,
  decode_secondary,
}
use diablo.Message.Params.RoundTrip.{
  FitsPrimary, FitsSecondary, IsPrimaryParameters, encode_primary-decode_primary,
  encode_secondary-decode_secondary,
}
use diablo.Primary.{new_remote_secondary}

-- `init` of a primaryConn: the parameters come in, and the tags go out.
unfoldable pub primary_conn_init :
    MsgSecondaryParameters → Sink → Bytes → Result (MsgPrimaryParameters × Sink × Bytes)
primary_conn_init from_secondary out input = and_then (decode_primary input) (λ r.
    let (e, out') = encode_secondary from_secondary out in
    elim e [ some e' ↦ err e' | none ↦ ok (r.0, out', r.1) ])

-- What `newRuntime` fills in, with a system of any type.
pub record NewRuntime (System : Type 0) : Type 0 where
  pub params : MsgPrimaryParameters
  pub chain : System

module _ {System : Type 0} where
  unfoldable pub new_runtime :
      List Bytes → Map Bytes System → Sink → Bytes → Result (NewRuntime System × Sink × Bytes)
  new_runtime tags system_map out input =
      and_then (primary_conn_init (record { tags = tags }) out input) (λ r.
        elim (lookup r.0.sysname system_map) [
          | none ↦ err (unknown_interface r.0.sysname)
          | some chain ↦ ok (record { params = r.0; chain = chain }, r.1, r.2)
        ])

Decides-Transmits {ℓ κ} :
    {F : Type ℓ} {A : Type κ} {w : Writer} {p : Parser A} {a : A}
    → Decides F w p a
    → F
    → Transmits w p a
Decides-Transmits (inl (f, t)) h = t
Decides-Transmits (inr (no_fit, refused)) h = absurd (no_fit h)

init-transmits :
    (m : MsgSecondaryParameters) (out out' : Sink) (input rest : Bytes)
    (params : MsgPrimaryParameters)
    → decode_primary input ≡ ok (params, rest)
    → encode_secondary m out ≡ (none, out')
    → primary_conn_init m out input ≡ ok (params, out', rest)
unfolding primary_conn_init
init-transmits m out out' input rest params read wrote =
    rw (read, wrote, primary_conn_init) (rw wrote refl)

runtime-transmits :
    {System : Type 0} (tags : List Bytes) (system_map : Map Bytes System) (chain : System)
    (out out' : Sink) (input rest : Bytes) (params : MsgPrimaryParameters)
    → primary_conn_init (record { tags = tags }) out input ≡ ok (params, out', rest)
    → lookup params.sysname system_map ≡ some chain
    → new_runtime tags system_map out input
      ≡ ok (record { params = params; chain = chain }, out', rest)
unfolding new_runtime
runtime-transmits tags system_map chain out out' input rest params init known =
    rw (init, new_runtime) (rw (known, and_then) refl)

remote-transmits :
    (addr : Bytes) (params : MsgPrimaryParameters) (m : MsgSecondaryParameters) (out out' : Sink)
    (input rest : Bytes)
    → encode_primary params out ≡ (none, out')
    → decode_secondary input ≡ ok (m, rest)
    → new_remote_secondary addr params out input
      ≡ ok (record { addr = addr; tags = m.tags ++ addr ∷ []; clients = []; out = out' }, rest)
unfolding new_remote_secondary
remote-transmits addr params m out out' input rest wrote read =
    rw (wrote, read, new_remote_secondary) (rw (wrote) refl)

-- If the primary's parameters fit their format and the tags theirs, the secondary knows the system of
-- that name, and both connections take the bytes, then both ends of the handshake succeed: the
-- secondary has the primary's parameters and the system of their name, the primary the secondary's
-- tags with the address behind them, and neither takes a byte beyond the other's message.
pub new_runtime-new_remote_secondary :
    {System : Type 0} (addr : Bytes) (params : MsgPrimaryParameters) (tags : List Bytes)
    (system_map : Map Bytes System) (chain : System)
    → IsPrimaryParameters params
    → FitsPrimary params
    → FitsSecondary (record { tags = tags })
    → lookup params.sysname system_map ≡ some chain
    → (p q : Bytes) × ((out out' : Sink) (rest rest' : Bytes)
        → length p ≤ out.room
        → length q ≤ out'.room
        → (new_runtime tags system_map out' (p ++ rest')
            ≡ ok (record { params = params; chain = chain }, sent q out', rest'))
          × (new_remote_secondary addr params out (q ++ rest)
              ≡ ok (
                record { addr = addr; tags = tags ++ addr ∷ []; clients = []; out = sent p out },
                rest,
              )))
new_runtime-new_remote_secondary addr params tags system_map chain typed fits fits' known =
    let t = Decides-Transmits (encode_primary-decode_primary params typed) fits in
    let t' = Decides-Transmits (encode_secondary-decode_secondary (record { tags = tags })) fits' in
    (
      t.bytes,
      t'.bytes,
      λ out out' rest rest' room room'. (
        runtime-transmits tags system_map chain out' _ _ rest' params
            (init-transmits (record { tags = tags }) out' _ _ rest' params (t.reads.run rest')
              (t'.writes out' room'))
            known,
        remote-transmits addr params (record { tags = tags }) out _ _ rest (t.writes out room)
            (t'.reads.run rest),
      ),
    )
