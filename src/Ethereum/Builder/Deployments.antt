-- ===== src/Ethereum/Builder/Deployments.antt =====
-- What the deployments of contracts do to the nonces of the account that pays for them.
use diablo.Prelude.{
  ℕ, suc, ◌+◌, ◌%◌, ◌^◌, ◌<◌, ◌≡◌, refl, ap, ◌∙◌, Option, some, List, [], ◌∷◌, Bytes, ℤ, lookup,
  length, get_elem?, set, get_elem?-set_self, get_elem?-lt, arith,
}
use diablo.Wire.Errors.{Error, Result, ok, err}
use diablo.Ethereum.{Library, IsDocumented}
use diablo.Ethereum.Nonce.{next_nonce, get_nonce, slot_of, probe, sync_slot, offset_from}
use diablo.Ethereum.Builder.Nonces.{nonce_in, transfer_payload-nonce}
use diablo.Ethereum.Parameters.{Node}
use diablo.Ethereum.Builder.{
  Application, Poll, Account, Contract, Builder, get_application, deploy, create_contract,
  encode_transfer, encoded, transfer_payload,
}

module _ (eth : Library) where
  -- A call of `CreateContract`, with what the node answers.
  pub record Deployment : Type 0 where
    pub name : Bytes
    pub node : Node
    pub send : Option Error
    pub polls : List (Poll eth.Address)

  abbrev Paid : Account eth → Builder eth → Builder eth → Type 0
  Paid a b b' = b'.premade ≡ set b.premade 0 (record a { nonce = (a.nonce + 1) % 2 ^ 64 })

  get_application-premade :
      (name : Bytes) (b : Builder eth) → (get_application eth name b).1.premade ≡ b.premade
  unfolding get_application
  get_application-premade name b = ground arith

  deploy-ok :
      (appli : Application) (a : Account eth) (node : Node) (send : Option Error)
      (polls : List (Poll eth.Address)) (b b' : Builder eth) (c : Contract eth)
      → get_elem? b.premade 0 ≡ some a
      → deploy eth appli node send polls b ≡ (ok c, b')
      → Paid a b b'
  unfolding deploy
  deploy-ok appli a node send polls b b' c there h = ground arith

  create_contract-ok :
      (d : Deployment) (a : Account eth) (b b' : Builder eth) (c : Contract eth)
      → get_elem? b.premade 0 ≡ some a
      → create_contract eth d.name d.node d.send d.polls b ≡ (ok c, b')
      → Paid a b b'
  unfolding create_contract
  create_contract-ok d a b b' c there h = ground arith

  -- One deployment after the other, all of which succeed.
  unfoldable pub deploy_all : List Deployment → Builder eth → Result (Builder eth)
  deploy_all [] b = ok b
  deploy_all (d ∷ ds) b =
      let (r, b') = create_contract eth d.name d.node d.send d.polls b in
      let rest = deploy_all ds b' in elim r [ err e ↦ err e | ok c ↦ rest ]

  advanced-at :
      (b b' : Builder eth) (a : Account eth)
      → get_elem? b.premade 0 ≡ some a
      → a.nonce + 1 < 2 ^ 64
      → Paid a b b'
      → get_elem? b'.premade 0 ≡ some (record a { nonce = a.nonce + 1 })
  advanced-at b b' a there small paid =
      let word : (a.nonce + 1) % 2 ^ 64 ≡ a.nonce + 1 = omega arith in
      rw paid (
        get_elem?-set_self b.premade 0 _ (get_elem?-lt b.premade 0 there)
        ∙ ap (λ (n : ℕ). some (record a { nonce = n })) word)

  After : Builder eth → Account eth → ℕ → Type 0
  After b a k = get_elem? b.premade 0 ≡ some (record a { nonce = a.nonce + k })

  deploy_all-nonce_step :
      (d : Deployment) (ds : List Deployment) (b b' : Builder eth) (a : Account eth)
      → get_elem? b.premade 0 ≡ some a
      → a.nonce + suc (length ds) < 2 ^ 64
      → ((b1 : Builder eth)
          → After b1 a 1
          → deploy_all ds b1 ≡ ok b'
          → After b' a (suc (length ds)))
      → (r : Result (Contract eth)) (b1 : Builder eth)
      → create_contract eth d.name d.node d.send d.polls b ≡ (r, b1)
      → deploy_all (d ∷ ds) b ≡ ok b'
      → After b' a (suc (length ds))
  unfolding deploy_all After
  deploy_all-nonce_step d ds b b' a there small ih (err e) b1 made h =
      let no = rw (made, deploy_all) at h in cc
  deploy_all-nonce_step d ds b b' a there small ih (ok c) b1 made h =
      ih b1 (advanced-at b b1 a there (omega arith) (create_contract-ok d a b b1 c there made))
        (let first = rw (made, deploy_all) at h in rw made at first)

  deploy_all-nonce :
      (ds : List Deployment) (b b' : Builder eth) (a : Account eth)
      → get_elem? b.premade 0 ≡ some a
      → a.nonce + length ds < 2 ^ 64
      → deploy_all ds b ≡ ok b'
      → After b' a (length ds)
  unfolding deploy_all After
  deploy_all-nonce [] b b' a there small h = ground arith
  deploy_all-nonce (d ∷ ds) b b' a there small h =
      deploy_all-nonce_step d ds b b' a there small
        (λ b1 there' h'. ground (
          arith,
          deploy_all-nonce ds b1 b' (record a { nonce = a.nonce + 1 }) there' (omega arith) h',
        ))
        _ _ refl h

  encoded-ok :
      (i : ℕ) (a : Account eth) (r : Result Bytes) (b : Builder eth) {payload : Bytes}
      → (encoded eth i a r b).0 ≡ ok payload
      → r ≡ ok payload
  unfolding encoded
  encoded-ok i a (ok p) b h = h
  encoded-ok i a (err e) b h = cc

  -- When the first account, which has encoded nothing yet, has paid for some deployments that all
  -- succeeded, the next transfer that it pays for carries their number as its nonce; and a client whose
  -- node counts `p` transactions of the account before the deployments, and so `p` and their number
  -- after them, gives this transfer the nonce `p` and twice their number, where the node expects `p`
  -- and their number.
  pub deploy_all-gap :
      IsDocumented eth
      → (ds : List Deployment) (b b' : Builder eth) (a : Account eth) (amount : ℤ)
        (to : eth.Address)
      → get_elem? b.premade 0 ≡ some a
      → a.nonce ≡ 0
      → deploy_all ds b ≡ ok b'
      → (payload : Bytes) → (encode_transfer eth amount 0 to b').0 ≡ ok payload
      → (key : Bytes) (p : ℕ) → p + length ds + length ds < 2 ^ 64
      → (nonce_in eth payload ≡ some (length ds))
        × ((next_nonce key (length ds) (ok (p + length ds)) []).0 ≡ ok (p + length ds + length ds))
  unfolding After encode_transfer next_nonce get_nonce slot_of probe sync_slot offset_from lookup
  deploy_all-gap doc ds b b' a amount to there fresh done payload made key p small =
      let after = deploy_all-nonce ds b b' a there (omega arith) done in
      let paid : Account eth = record a { nonce = a.nonce + length ds } in
      let bytes =
        encoded-ok 0 paid (transfer_payload eth amount paid to) b'
          (rw (after, encode_transfer) at made) in
      (
        transfer_payload-nonce eth doc amount paid to payload (omega arith) bytes
            ∙ ap (λ (n : ℕ). some n) (omega arith),
        ap (λ (n : ℕ). ok n) (omega arith),
      )
