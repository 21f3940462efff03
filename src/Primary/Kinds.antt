-- ===== src/Primary/Kinds.antt =====
-- The numbers that `sendInteraction` gives to the kinds of interactions name one kind each.
use diablo.Prelude.{
  get_elem?-append_split, refl, pos, ℕ, ◌≡◌, none, some, [], ◌∷◌, ◌++◌, Bytes, bytes_key, bytes_eq,
  bytes_eq_iff, lookup, insert, lookup-insert, length, get_elem?, get_elem?-append_last,
  get_elem?-append_left, get_elem?-lt, arith, inl, inr, Option-cases, Bool-cases, ◌∙◌,
}
use diablo.Float.{Float64}
use diablo.Primary.{RemoteClient, new_remote_client, extend_time, number_kind, schedule}

-- A kind is in `ikinds` under the number of its place in `kinds`, and every place is in `ikinds`.
pub record IsNumbered (c : RemoteClient) : Type 0 where
  pub named : (k : Bytes) (n : ℕ) → lookup k c.ikinds ≡ some n → get_elem? c.kinds n ≡ some k
  pub numbered : (k : Bytes) (n : ℕ) → get_elem? c.kinds n ≡ some k → lookup k c.ikinds ≡ some n

pub IsNumbered-new : (index : ℕ) (kind : Bytes) → IsNumbered (new_remote_client index kind)
unfolding new_remote_client lookup
IsNumbered-new index kind = record {
  named = λ k n e. absurd (cc e);
  numbered = λ k n e. absurd (cc e);
}

extend_time-IsNumbered :
    (time : Float64) (c : RemoteClient) → IsNumbered c → IsNumbered (extend_time time c)
unfolding extend_time
extend_time-IsNumbered time c h = record {
  named = λ k n e. ground (arith, h.named k n);
  numbered = λ k n e. ground (arith, h.numbered k n);
}

module _ (kind : Bytes) (c : RemoteClient) where
  number_kind-known : (n : ℕ) → lookup kind c.ikinds ≡ some n → number_kind kind c ≡ (n, c)
  unfolding number_kind
  number_kind-known n known = rw (known, number_kind)

  abbrev with_kind : RemoteClient
  with_kind = record c {
    kinds = c.kinds ++ kind ∷ [];
    ikinds = insert kind (length c.kinds) c.ikinds;
  }

  number_kind-fresh : lookup kind c.ikinds ≡ none → number_kind kind c ≡ (length c.kinds, with_kind)
  unfolding number_kind
  number_kind-fresh fresh = rw (fresh, number_kind)

  with_kind-IsNumbered : lookup kind c.ikinds ≡ none → IsNumbered c → IsNumbered with_kind
  with_kind-IsNumbered fresh h = record {
    named = λ k n e. elim (Bool-cases (bytes_eq kind k)) [
      | inl same ↦ ground (
        arith,
        lookup-insert kind k (length c.kinds) c.ikinds,
        bytes_eq_iff kind k,
        get_elem?-append_last c.kinds kind,
      )
      | inr other ↦
          let old : lookup k c.ikinds ≡ some n =
            ground (arith, lookup-insert kind k (length c.kinds) c.ikinds) in
          get_elem?-append_left c.kinds (kind ∷ []) n (get_elem?-lt c.kinds n (h.named k n old))
          ∙ h.named k n old
    ];
    numbered = λ k n e. elim (get_elem?-append_split c.kinds kind n e) [
      | inl old ↦ ground (
        arith,
        h.numbered k n old,
        lookup-insert kind k (length c.kinds) c.ikinds,
        bytes_eq_iff kind k,
      )
      | inr (last, same) ↦
          ground (arith, lookup-insert kind k (length c.kinds) c.ikinds, bytes_eq_iff kind k)
    ];
  }

module _ (kind : Bytes) (time : Float64) (encoded : Bytes) (c : RemoteClient)
    (h : IsNumbered c) where
  -- On a client whose kinds are numbered by their places, `sendInteraction` keeps them so, and
  -- the number that it sends stands for the kind that it was called with.
  pub schedule-IsNumbered :
      IsNumbered (schedule kind time encoded c).0
      × ((n : ℕ) × ((schedule kind time encoded c).1.ikind ≡ pos n)
          × (get_elem? (schedule kind time encoded c).0.kinds n ≡ some kind))
  unfolding schedule
  schedule-IsNumbered =
      let c' : RemoteClient = extend_time time c in
      let h' : IsNumbered c' = extend_time-IsNumbered time c h in
      elim (Option-cases (lookup kind c'.ikinds)) [
        | inl fresh ↦ rw (number_kind-fresh kind c' fresh) (
          with_kind-IsNumbered kind c' fresh h',
          (length c'.kinds, refl, get_elem?-append_last c'.kinds kind),
        )
        | inr (n, known) ↦
            rw (number_kind-known kind c' n known) (h', (n, refl, h'.named kind n known))
      ]
