-- ===== src/Ethereum/Nonce.antt =====
-- blockchains/nethereum/transaction.go: `staticNonceManager`. Its locks make a call of `nextNonce` for an
-- account wait for the one before, so the calls are a sequence.
pub mod Stable
use diablo.Prelude.{
  ℕ, ◌+◌, ◌%◌, ◌^◌, Bool, true, false, Option, none, some, Bytes, bytes_key, Map, lookup, insert,
}
use diablo.Wire.Errors.{Error, Result, ok, err}

pub record StaticNonce : Type 0 where
  pub synced : Bool
  pub base : ℕ

-- `bases`, by the text of an address.
abbrev pub NonceManager : Type 0
NonceManager = Map Bytes StaticNonce

unfoldable pub slot_of : Option StaticNonce → StaticNonce
slot_of none = record { synced = false; base = 0 }
slot_of (some s) = s

-- What `PendingNonceAt` answers goes to the slot; an error leaves it to be asked again.
unfoldable pub sync_slot : Result ℕ → StaticNonce → Option Error × StaticNonce
sync_slot (ok n) s = (none, record { synced = true; base = n })
sync_slot (err e) s = (some e, record s { base = 0 })

-- Only a slot that is not synced yet asks the node.
unfoldable pub probe : Bool → Result ℕ → StaticNonce → Option Error × StaticNonce
unfolding sync_slot
probe true pending s = (none, s)
probe false pending s = sync_slot pending s

-- `getNonce`: the slot of an account, asked of the node once.
unfoldable pub get_nonce :
    Bytes → Result ℕ → NonceManager → Option Error × StaticNonce × NonceManager
unfolding slot_of
get_nonce key pending m =
    let slot = slot_of (lookup key m) in
    let (e, slot') = probe slot.synced pending slot in (e, slot', insert key slot' m)

unfoldable pub offset_from : ℕ → Option Error → StaticNonce → Result ℕ
offset_from offset none slot = ok ((slot.base + offset) % 2 ^ 64)
offset_from offset (some e) slot = err e

unfoldable pub next_nonce : Bytes → ℕ → Result ℕ → NonceManager → Result ℕ × NonceManager
next_nonce key offset pending m =
    let (e, slot, m') = get_nonce key pending m in (offset_from offset e slot, m')
