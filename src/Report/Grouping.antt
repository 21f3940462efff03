-- ===== src/Report/Grouping.antt =====
-- `addResult` groups the results by client: each is appended to those of its own client.
use diablo.Prelude.{
  ℕ, zero, suc, ◌≡◌, refl, ◌∙◌, Option, none, some, List, [], ◌∷◌, ◌++◌, Bytes, ℤ, int_key, eq_ℤ,
  eq_ℤ_iff, lookup, insert, lookup-insert, length, get_elem?, get_elem?-append_last,
  get_elem?-append_left, get_elem?-lt, arith, ◌==◌, if◌then◌else◌, inl, inr, Bool-cases,
  Option-cases,
}
use diablo.Report.{
  InteractionResult, ClientResult, SecondaryResult, new_secondary_result, get_client_result,
  append_interaction, add_result,
}

-- The ids and the results of the clients refer to one another.
pub record IsIndexed (s : SecondaryResult) : Type 0 where
  pub there :
      (id : ℤ) (o : ℕ)
      → lookup id s.ids ≡ some o
      → (c : ClientResult) × (get_elem? s.clients o ≡ some c) × (c.index ≡ id)

-- The results recorded for a client.
abbrev interactions_at : List ClientResult → Option ℕ → List InteractionResult
interactions_at cs none = []
interactions_at cs (some o) = elim (get_elem? cs o) [ none ↦ [] | some c ↦ c.interactions ]

unfoldable pub interactions_of : SecondaryResult → ℤ → List InteractionResult
interactions_of s id = interactions_at s.clients (lookup id s.ids)

get_elem?-append_interaction :
    (cs : List ClientResult) (o p : ℕ) (r : InteractionResult)
    → get_elem? (append_interaction cs o r) p ≡ elim (get_elem? cs p) [
      | none ↦ none
      | some c ↦ some (if o == p then record c { interactions = c.interactions ++ r ∷ [] } else c)
    ]
unfolding append_interaction
get_elem?-append_interaction [] o p r = refl
get_elem?-append_interaction (c ∷ cs) zero zero r = refl
get_elem?-append_interaction (c ∷ cs) zero (suc p) r = ground arith
get_elem?-append_interaction (c ∷ cs) (suc o) zero r = ground arith
get_elem?-append_interaction (c ∷ cs) (suc o) (suc p) r =
    ground (arith, get_elem?-append_interaction cs o p r)

pub IsIndexed-new : (addr : Bytes) (tags : List Bytes) → IsIndexed (new_secondary_result addr tags)
unfolding new_secondary_result lookup
IsIndexed-new addr tags = record { there = λ id o e. absurd (cc e) }

-- Appending to the result at the place of `id` changes what is recorded for `id` alone.
interactions_found :
    (id : ℤ) (r : InteractionResult) (s : SecondaryResult)
    → IsIndexed s
    → (o : ℕ) → lookup id s.ids ≡ some o
    → (j : ℤ)
    → interactions_of (record s { clients = append_interaction s.clients o r }) j
      ≡ (if eq_ℤ id j then interactions_of s j ++ r ∷ [] else interactions_of s j)
unfolding interactions_of
interactions_found id r s h o found j = elim (Option-cases (lookup j s.ids)) [
  | inl fresh ↦ ground (arith, fresh, eq_ℤ_iff id j)
  | inr (p, known) ↦
      let (c, at, index) = h.there id o found in
      let (d, at', index') = h.there j p known in
      ground (arith, known, eq_ℤ_iff id j, get_elem?-append_interaction s.clients o p r)
]

append_interaction-there :
    (s : SecondaryResult) (o : ℕ) (r : InteractionResult)
    → IsIndexed s
    → IsIndexed (record s { clients = append_interaction s.clients o r })
append_interaction-there s o r h = record {
  there = λ j p known.
      let (d, at, index) = h.there j p known in
      (
        if o == p then record d { interactions = d.interactions ++ r ∷ [] } else d,
        ground (arith, get_elem?-append_interaction s.clients o p r),
        ground arith,
      );
}

abbrev new_client : ℤ → Bytes → ClientResult
new_client id kind = record { index = id; kind = kind; interactions = [] }

abbrev with_client : ℤ → Bytes → SecondaryResult → SecondaryResult
with_client id kind s = record s {
  ids = insert id (length s.clients) s.ids;
  clients = s.clients ++ new_client id kind ∷ [];
}

module _ (id : ℤ) (kind : Bytes) (s : SecondaryResult) (h : IsIndexed s) where
  get_client_result-known :
      (o : ℕ) → lookup id s.ids ≡ some o → get_client_result id kind s ≡ (o, s)
  unfolding get_client_result
  get_client_result-known o found = rw (found, get_client_result)

  module _ (fresh : lookup id s.ids ≡ none) where
    get_client_result-fresh :
        get_client_result id kind s ≡ (length s.clients, with_client id kind s)
    unfolding get_client_result
    get_client_result-fresh = rw (fresh, get_client_result)

    lookup-with_client :
        (j : ℤ)
        → lookup j (with_client id kind s).ids
          ≡ (if eq_ℤ id j then some (length s.clients) else lookup j s.ids)
    lookup-with_client j = lookup-insert id j (length s.clients) s.ids

    with_client-IsIndexed : IsIndexed (with_client id kind s)
    with_client-IsIndexed = record {
      there = λ j p known. elim (Bool-cases (eq_ℤ id j)) [
        | inl same ↦ (
          new_client id kind,
          ground
              (arith, lookup-with_client j, get_elem?-append_last s.clients (new_client id kind)),
          (eq_ℤ_iff id j).0 same,
        )
        | inr other ↦
            let old : lookup j s.ids ≡ some p = ground (arith, lookup-with_client j) in
            let (d, at, index) = h.there j p old in
            (
              d,
              get_elem?-append_left s.clients (new_client id kind ∷ []) p
                    (get_elem?-lt s.clients p at)
                  ∙ at,
              index,
            )
      ];
    }

    interactions_of-with_client :
        (j : ℤ) → interactions_of (with_client id kind s) j ≡ interactions_of s j
    unfolding interactions_of
    interactions_of-with_client j = elim (Option-cases (lookup j s.ids)) [
      | inl none_yet ↦ ground (
        arith,
        lookup-with_client j,
        eq_ℤ_iff id j,
        get_elem?-append_last s.clients (new_client id kind),
      )
      | inr (p, known) ↦
          let (d, at, index) = h.there j p known in
          ground (
            arith,
            lookup-with_client j,
            eq_ℤ_iff id j,
            get_elem?-append_left s.clients (new_client id kind ∷ []) p
                (get_elem?-lt s.clients p at),
          )
    ]

  -- On results whose ids and clients refer to one another, `addResult` appends the result to
  -- those of its client, and leaves the other clients' alone.
  pub interactions_of-add_result :
      (r : InteractionResult) (j : ℤ)
      → interactions_of (add_result id kind r s) j
        ≡ (if eq_ℤ id j then interactions_of s j ++ r ∷ [] else interactions_of s j)
  unfolding add_result
  interactions_of-add_result r j = elim (Option-cases (lookup id s.ids)) [
    | inr (o, known) ↦ rw (get_client_result-known o known) (interactions_found id r s h o known j)
    | inl fresh ↦
        let at_new : lookup id (with_client id kind s).ids ≡ some (length s.clients) =
          ground (arith, lookup-with_client fresh id, eq_ℤ_iff id id) in
        rw (get_client_result-fresh fresh) (
          rw (interactions_of-with_client fresh j) at (
            interactions_found id r (with_client id kind s) (with_client-IsIndexed fresh)
              (length s.clients) at_new j))
  ]

  -- And it keeps the ids and the clients in step.
  pub add_result-IsIndexed : (r : InteractionResult) → IsIndexed (add_result id kind r s)
  unfolding add_result
  add_result-IsIndexed r = elim (Option-cases (lookup id s.ids)) [
    | inr (o, known) ↦ rw (get_client_result-known o known) (append_interaction-there s o r h)
    | inl fresh ↦ rw (get_client_result-fresh fresh) (
        append_interaction-there (with_client id kind s) (length s.clients) r
          (with_client-IsIndexed fresh))
  ]

pub interactions_of-new :
    (addr : Bytes) (tags : List Bytes) (j : ℤ)
    → interactions_of (new_secondary_result addr tags) j ≡ []
unfolding interactions_of new_secondary_result lookup
interactions_of-new addr tags j = refl
