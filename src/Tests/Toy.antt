-- ===== src/Tests/Toy.antt =====
-- A library for the client of Ethereum in which a key is its bytes, there are two addresses, and a transaction
-- is signed by keeping it.
use diablo.Prelude.{ℕ, ◌≡◌, refl, Bool, true, false, [], ◌∷◌, Bytes, ◌==◌, length}
use diablo.Wire.Errors.{ok}
use diablo.Wire.Source.{first}
use diablo.Ethereum.{Library, IsDocumented, TxData}

abbrev pub twenty : ℕ → Bytes
twenty b = b ∷ b ∷ b ∷ b ∷ b ∷ b ∷ b ∷ b ∷ b ∷ b ∷ b ∷ b ∷ b ∷ b ∷ b ∷ b ∷ b ∷ b ∷ b ∷ b ∷ []

abbrev pub party_bytes : Bool → Bytes
party_bytes true = twenty 1
party_bytes false = twenty 2

abbrev pub toy : Library
toy = record {
  PrivateKey = Bytes;
  Address = Bool;
  SignedTx = TxData Bool;
  from_ecdsa = λ k. k;
  to_ecdsa = λ k. ok k;
  address_bytes = party_bytes;
  bytes_to_address = λ bs. first bs == 1;
  address_string = party_bytes;
  pubkey_to_address = λ k. first k == 1;
  sign_tx = λ tx chain k. ok tx;
  hash = λ tx. tx.nonce ∷ [];
}

party-length : (a : Bool) → length (party_bytes a) ≡ 20
party-length true = refl
party-length false = refl

party-bytes : (a : Bool) → (first (party_bytes a) == 1) ≡ a
party-bytes true = refl
party-bytes false = refl

pub toy-IsDocumented : IsDocumented toy
toy-IsDocumented = record {
  key_bytes = λ k. refl;
  address_length = party-length;
  address_bytes = party-bytes;
}
