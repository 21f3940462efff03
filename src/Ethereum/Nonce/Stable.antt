-- ===== src/Ethereum/Nonce/Stable.antt =====
-- All nonces of an account count from one base.
use diablo.Prelude.{
  ℕ, ◌+◌, ◌%◌, ◌^◌, ◌≡◌, refl, ap, Bool, true, false, Option, none, some, List, [], ◌∷◌, Bytes,
  bytes_eq, bytes_eq_iff, bytes_key, lookup, lookup-insert, Bool-cases, inl, inr, arith,
}
use diablo.Wire.Errors.{Error, Result, ok, err}
use diablo.Ethereum.Nonce.{
  StaticNonce, NonceManager, slot_of, probe, get_nonce, offset_from, next_nonce,
}

-- A call of `nextNonce`: the account, the offset, and what the node would answer.
pub record Call : Type 0 where
  pub key : Bytes
  pub offset : ℕ
  pub pending : Result ℕ

unfoldable pub calls : List Call → NonceManager → NonceManager
calls [] m = m
calls (c ∷ cs) m = calls cs (next_nonce c.key c.offset c.pending m).1

abbrev pub IsSynced : Bytes → ℕ → NonceManager → Type 0
IsSynced key b m = lookup key m ≡ some (record { synced = true; base = b })

pub next_nonce-synced :
    (key : Bytes) (b offset : ℕ) (pending : Result ℕ) (m : NonceManager)
    → IsSynced key b m
    → (next_nonce key offset pending m).0 ≡ ok ((b + offset) % 2 ^ 64)
unfolding next_nonce get_nonce slot_of probe offset_from
next_nonce-synced key b offset pending m h = rw h

pub next_nonce-IsSynced :
    (key : Bytes) (b : ℕ) (c : Call) (m : NonceManager)
    → IsSynced key b m
    → IsSynced key b (next_nonce c.key c.offset c.pending m).1
unfolding next_nonce get_nonce slot_of probe
next_nonce-IsSynced key b c m h = elim (Bool-cases (bytes_eq c.key key)) [
  | inl same ↦
      let e = (bytes_eq_iff c.key key).0 same in
      rw (lookup-insert, e, (bytes_eq_iff key key).1 refl) (rw h)
  | inr other ↦ rw (lookup-insert, other) h
]

calls-IsSynced :
    (key : Bytes) (b : ℕ) (cs : List Call) (m : NonceManager)
    → IsSynced key b m
    → IsSynced key b (calls cs m)
unfolding calls
calls-IsSynced key b [] m h = h
calls-IsSynced key b (c ∷ cs) m h = calls-IsSynced key b cs _ (next_nonce-IsSynced key b c m h)

probe-synced :
    (b : Bool) (base : ℕ) (pending : Result ℕ)
    → (probe b pending (record { synced = b; base = base })).0 ≡ none
    → (probe b pending (record { synced = b; base = base })).1.synced ≡ true
unfolding probe
probe-synced true base pending h = refl
probe-synced false base (ok n) h = refl
probe-synced false base (err e) h = cc

offset_from-ok :
    (offset : ℕ) (e : Option Error) (slot : StaticNonce) {n : ℕ}
    → offset_from offset e slot ≡ ok n
    → (e ≡ none) × (n ≡ (slot.base + offset) % 2 ^ 64)
unfolding offset_from
offset_from-ok offset none slot h = ground arith
offset_from-ok offset (some e) slot h = cc

-- An account whose nonce a client has once computed has a base: that nonce is the base and the
-- offset, modulo 2 ^ 64; and whatever calls follow, for whatever accounts, offsets and answers of the
-- node, the next nonce of this account is the same base and its offset, whatever the node answers.
pub next_nonce-stable :
    (key : Bytes) (offset n : ℕ) (pending : Result ℕ) (m m' : NonceManager)
    → next_nonce key offset pending m ≡ (ok n, m')
    → (b : ℕ) × (n ≡ (b + offset) % 2 ^ 64)
      × ((cs : List Call) (offset' : ℕ) (pending' : Result ℕ)
          → (next_nonce key offset' pending' (calls cs m')).0 ≡ ok ((b + offset') % 2 ^ 64))
unfolding next_nonce get_nonce
next_nonce-stable key offset n pending m m' h =
    let s = slot_of (lookup key m) in
    let s' = (probe s.synced pending s).1 in
    let (fine, value) = offset_from-ok offset _ s' (ap (λ (r : Result ℕ × NonceManager). r.0) h) in
    let synced = probe-synced s.synced s.base pending fine in
    let known : IsSynced key s'.base m' =
      rw (← ap (λ (r : Result ℕ × NonceManager). r.1) h)
        (rw (lookup-insert, (bytes_eq_iff key key).1 refl) (ground (arith, synced))) in
    (
      s'.base,
      value,
      λ cs offset' pending'.
          next_nonce-synced key s'.base offset' pending' (calls cs m')
            (calls-IsSynced key s'.base cs m' known),
    )
