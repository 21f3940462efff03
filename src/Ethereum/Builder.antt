-- ===== src/Ethereum/Builder.antt =====
-- blockchains/nethereum/builder.go, and `arguments` of blockchains/nethereum/contract.go: the accounts and
-- contracts of a benchmark, and the transactions that it encodes. A pointer to an account is its place
-- among the premade ones.
pub mod Nonces
pub mod Deployments
use diablo.Prelude.{
  ℕ, ◌+◌, ◌%◌, ◌^◌, Option, none, some, List, [], ◌∷◌, ◌++◌, Bytes, bytes_key, ℤ, pos, wrap, Map,
  lookup, insert, length, get_elem?, set,
}
use diablo.Wire.Errors.{
  Error, Result, ok, err, and_then, eof, out_of_fuel, index_out_of_range, no_premade_accounts,
  premade_accounts_used, cannot_compile, unknown_function, unknown_interaction_type,
}
use diablo.Wire.Sink.{frame}
use diablo.Ethereum.{Library}
use diablo.Ethereum.Parameters.{Node, ParameterProvider, once}
use diablo.Ethereum.Transaction.{
  TransferTransaction, InvokeTransaction, check_transfer, transfer_chunks, check_invoke,
  invoke_chunks,
}
use diablo.Ethereum.Signing.{Shared, deploying, get_tx}

-- A compiled contract: its code, and the selectors of its functions.
pub record Application : Type 0 where
  pub text : Bytes
  pub entries : Map Bytes Bytes

-- What the process that encodes arguments does with a request: the write of it, the lines that it
-- prints, and the error that ends them.
pub record Reply : Type 0 where
  pub write_error : Option Error
  pub lines : List Bytes
  pub scan_error : Option Error

-- What the node does with a deployment: the error of the submission, and the answers to the polls for
-- the receipt.
pub data Poll (Address : Type 0) : Type 0 where
  receipt : Address → Poll Address
  not_found : Poll Address
  failed : Error → Poll Address

unfoldable pub end_of_lines : Option Error → Error
end_of_lines none = eof
end_of_lines (some e) = e

-- `append(entry, payload...)` for the function that the process names.
unfoldable pub with_entry : Map Bytes Bytes → Bytes → Bytes → Result Bytes
with_entry entries fname payload = elim (lookup fname entries) [
  | none ↦ err (unknown_function fname)
  | some entry ↦ ok (entry ++ payload)
]

unfoldable pub read_lines :
    (Bytes → Result Bytes) → Map Bytes Bytes → Option Error → List Bytes → Result Bytes
unfolding end_of_lines with_entry
read_lines base64 entries scan_error [] = err (end_of_lines scan_error)
read_lines base64 entries scan_error (fname ∷ []) = err (end_of_lines scan_error)
read_lines base64 entries scan_error (fname ∷ line ∷ lines) =
    and_then (base64 line) (with_entry entries fname)

-- `arguments`, with `base64` for `DecodeString`.
unfoldable pub arguments : (Bytes → Result Bytes) → Application → Reply → Result Bytes
unfolding read_lines
arguments base64 appli reply = elim reply.write_error [
  | some e ↦ err e
  | none ↦ read_lines base64 appli.entries reply.scan_error reply.lines
]

-- The first compiler that succeeds.
unfoldable pub compile_first : List (Bytes → Result Application) → Bytes → Option Application
compile_first [] name = none
compile_first (compiler ∷ compilers) name = elim (compiler name) [
  | ok appli ↦ some appli
  | err e ↦ compile_first compilers name
]

-- The loop of `submitTransaction` over the polls.
unfoldable pub wait_receipt : {A : Type 0} → List (Poll A) → Result A
wait_receipt [] = err out_of_fuel
wait_receipt (receipt a ∷ polls) = ok a
wait_receipt (not_found ∷ polls) = wait_receipt polls
wait_receipt (failed e ∷ polls) = err e

unfoldable pub submit_transaction : {A : Type 0} → Option Error → List (Poll A) → Result A
unfolding wait_receipt
submit_transaction none polls = wait_receipt polls
submit_transaction (some e) polls = err e

-- A bytes.Buffer takes every write: what an `encode` leaves in it.
unfoldable pub buffered : Option Error → List Bytes → Result Bytes
buffered none ps = ok (frame ps)
buffered (some e) ps = err e

module _ (eth : Library) where
  open eth use {PrivateKey, Address}

  pub record Account : Type 0 where
    pub address : Address
    pub private : PrivateKey
    pub nonce : ℕ

  pub record Contract : Type 0 where
    pub appli : Application
    pub appid : Address

  pub record Builder : Type 0 where
    pub premade : List Account
    pub used : ℕ
    pub compilers : List (Bytes → Result Application)
    pub applications : Map Bytes Application
    pub shared : Shared

  unfoldable pub new_builder : Builder
  new_builder = record {
    premade = [];
    used = 0;
    compilers = [];
    applications = [];
    shared = record { manager = []; provider = once none };
  }

  unfoldable pub add_account : Address → PrivateKey → Builder → Builder
  add_account address private b = record b {
    premade = b.premade ++ record { address = address; private = private; nonce = 0 } ∷ [];
  }

  unfoldable pub add_compiler : (Bytes → Result Application) → Builder → Builder
  add_compiler compiler b = record b { compilers = b.compilers ++ compiler ∷ [] }

  unfoldable pub get_application : Bytes → Builder → Result Application × Builder
  unfolding compile_first
  get_application name b = elim (lookup name b.applications) [
    | some appli ↦ (ok appli, b)
    | none ↦ elim (compile_first b.compilers name) [
      | none ↦ (err (cannot_compile name), b)
      | some appli ↦ (ok appli, record b { applications = insert name appli b.applications })
    ]
  ]

  unfoldable pub create_account : Builder → Result ℕ × Builder
  create_account b = elim (get_elem? b.premade b.used) [
    | none ↦ (err (premade_accounts_used b.used), b)
    | some a ↦ (ok b.used, record b { used = b.used + 1 })
  ]

  -- `faccount.nonce += 1`
  unfoldable pub advance : ℕ → Account → Builder → Builder
  advance i a b = record b {
    premade = set b.premade i (record a { nonce = (a.nonce + 1) % 2 ^ 64 });
  }

  -- What follows the signature of a deployment by the account `a`.
  unfoldable pub deployed :
      Application
      → Account
      → Option Error
      → List (Poll Address)
      → Builder
      → Result Contract × Builder
  unfolding submit_transaction advance
  deployed appli a send polls b = elim (submit_transaction send polls) [
    | err e ↦ (err e, b)
    | ok appid ↦ (ok (record { appli = appli; appid = appid }), advance 0 a b)
  ]

  unfoldable pub deploy :
      Application → Node → Option Error → List (Poll Address) → Builder → Result Contract × Builder
  unfolding deployed
  deploy appli node send polls b = elim (get_elem? b.premade 0) [
    | none ↦ (err no_premade_accounts, b)
    | some a ↦
        let tx = deploying (record { nonce = a.nonce; text = appli.text; from = a.private }) in
        let (r, w) = get_tx eth node tx b.shared in
        let b' : Builder = record b { shared = w } in
        elim r.1 [ err e ↦ (err e, b') | ok stx ↦ deployed appli a send polls b' ]
  ]

  unfoldable pub create_contract :
      Bytes → Node → Option Error → List (Poll Address) → Builder → Result Contract × Builder
  unfolding get_application deploy
  create_contract name node send polls b =
      let (r, b') = get_application name b in
      elim r [ err e ↦ (err e, b') | ok appli ↦ deploy appli node send polls b' ]

  -- The account pays with its next nonce, which it keeps when nothing was encoded.
  unfoldable pub encoded : ℕ → Account → Result Bytes → Builder → Result Bytes × Builder
  unfolding advance
  encoded i a (err e) b = (err e, b)
  encoded i a (ok payload) b = (ok payload, advance i a b)

  -- `EncodeTransfer` from the account at `from`.
  unfoldable pub transfer_payload : ℤ → Account → Address → Result Bytes
  unfolding buffered
  transfer_payload amount a to =
      let tx : TransferTransaction eth = record {
        nonce = a.nonce;
        amount = wrap (2 ^ 64) amount;
        from = a.private;
        to = to;
      } in
      buffered (check_transfer eth tx) (transfer_chunks eth tx)

  unfoldable pub encode_transfer : ℤ → ℕ → Address → Builder → Result Bytes × Builder
  unfolding encoded transfer_payload
  encode_transfer amount from to b = elim (get_elem? b.premade from) [
    | none ↦ (err (index_out_of_range (pos from)), b)
    | some a ↦ encoded from a (transfer_payload amount a to) b
  ]

  -- `EncodeInvoke`, with the arguments that the process of the contract makes.
  unfoldable pub invoke_payload : Result Bytes → Account → Contract → Result Bytes
  unfolding buffered
  invoke_payload args a to = and_then args (λ payload.
      let tx : InvokeTransaction eth = record {
        nonce = a.nonce;
        from = a.private;
        appid = to.appid;
        payload = payload;
      } in
      buffered (check_invoke eth tx) (invoke_chunks eth tx))

  unfoldable pub encode_invoke :
      (Bytes → Result Bytes) → ℕ → Contract → Reply → Builder → Result Bytes × Builder
  unfolding encoded invoke_payload arguments
  encode_invoke base64 from to reply b = elim (get_elem? b.premade from) [
    | none ↦ (err (index_out_of_range (pos from)), b)
    | some a ↦ encoded from a (invoke_payload (arguments base64 to.appli reply) a to) b
  ]

  -- `EncodeInteraction`
  unfoldable pub encode_interaction : Bytes → Result Bytes
  encode_interaction itype = err (unknown_interaction_type itype)
