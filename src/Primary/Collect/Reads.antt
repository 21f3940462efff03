-- ===== src/Primary/Collect/Reads.antt =====
-- What `collect` makes of the results that a secondary sent.
use diablo.Prelude.{
  ℕ, ◌^◌, zero, suc, ◌≤◌, ◌<◌, ◌≡◌, refl, sym, ap, ◌∙◌, Bool, true, false, Option, none, some, List,
  [], ◌∷◌, ◌++◌, Bytes, length, length-append, ℤ, pos, negsuc, eq_ℤ, if◌then◌else◌, arith,
  get_elem?, get_elem?-lt, Within, Within-Below, All, Option-cases, inl, inr,
}
use mathlib.Core.List.{append-nil, append_assoc}
use diablo.Wire.Errors.{Error, ok}
use diablo.Wire.Sink.{frame}
use diablo.Wire.Little.{byte}
use diablo.Wire.Parses.{Parses, Parses-bind, Parses-bind_end, Parses-pure, Parses-lift}
use diablo.Message.Outcome.{
  MsgResultInteraction, interaction, decode_result, result_chunks, type_done,
}
use diablo.Message.Outcome.RoundTrip.{IsResult, reads_result, reads_done, received_result-Within}
use diablo.Report.{InteractionResult, SecondaryResult, new_secondary_result, add_result}
use diablo.Report.Grouping.{
  IsIndexed, IsIndexed-new, interactions_of, interactions_of-add_result, add_result-IsIndexed,
  interactions_of-new,
}
use diablo.Primary.{RemoteClient, RemoteSecondary}
use diablo.Primary.Collect.{checked_element, result_of, collect_one, collect_loop, collect}

-- The client that a result names, and the kind that it names there.
abbrev at_index {ℓ} : {A : Type ℓ} → List A → ℤ → Option A
at_index xs (pos i) = get_elem? xs i
at_index xs (negsuc i) = none

abbrev named_kind : Option RemoteClient → ℤ → Option (Bytes × Bytes)
named_kind none i = none
named_kind (some c) i = elim (at_index c.kinds i) [ none ↦ none | some k ↦ some (c.kind, k) ]

-- The kind of the client and the kind of the interaction.
abbrev pub names : List RemoteClient → MsgResultInteraction → Option (Bytes × Bytes)
names clients m = named_kind (at_index clients m.index) m.ikind

-- A result that the primary can place: it names a client and a kind of that client, both by numbers
-- that fit the format.
pub record IsPlaced (clients : List RemoteClient) (m : MsgResultInteraction) : Type 0 where
  pub typed : IsResult m
  pub client : Within (2 ^ 32) m.index
  pub ikind : Within 256 m.ikind
  pub kinds : Bytes × Bytes
  pub named : names clients m ≡ some kinds

checked_element-some {ℓ} :
    {A : Type ℓ} (xs : List A) (i : ℤ) (e : Error) (a : A)
    → at_index xs i ≡ some a
    → checked_element xs i e ≡ ok a
unfolding checked_element
checked_element-some xs (pos i) e a h = ground (arith, get_elem?-lt xs i h)
checked_element-some xs (negsuc i) e a h = cc

collect_one-named :
    (clients : List RemoteClient) (m : MsgResultInteraction) (r : SecondaryResult)
    (p : Bytes × Bytes)
    → names clients m ≡ some p
    → collect_one clients m r ≡ ok (add_result m.index p.0 (result_of p.1 m) r)
unfolding collect_one
collect_one-named clients m r p h = elim (Option-cases (at_index clients m.index)) [
  | inl nobody ↦ cc
  | inr (c, there) ↦ elim (Option-cases (at_index c.kinds m.ikind)) [
    | inl nothing ↦ cc
    | inr (k, kind) ↦
        rw
          (
            checked_element-some clients m.index _ c there,
            checked_element-some c.kinds m.ikind _ k kind,
          )
          (cc)
  ]
]

-- The bytes of results in a row, and of the marker behind them.
abbrev pub stream : List MsgResultInteraction → Bytes
stream [] = frame (byte type_done ∷ [])
stream (m ∷ ms) = frame (result_chunks m) ++ stream ms

-- The results recorded one after the other.
abbrev record_one : List RemoteClient → SecondaryResult → MsgResultInteraction → SecondaryResult
record_one clients r m = elim (names clients m) [
  | none ↦ r
  | some p ↦ add_result m.index p.0 (result_of p.1 m) r
]

unfoldable pub record_all :
    List RemoteClient → SecondaryResult → List MsgResultInteraction → SecondaryResult
record_all clients r [] = r
record_all clients r (m ∷ ms) = record_all clients (record_one clients r m) ms

-- What one result reports of the client with number `id`, and what results in a row do.
abbrev reported_one : List RemoteClient → MsgResultInteraction → ℤ → List InteractionResult
reported_one clients m id = elim (names clients m) [
  | none ↦ []
  | some p ↦ if eq_ℤ m.index id then result_of p.1 m ∷ [] else []
]

unfoldable pub reported : List RemoteClient → List MsgResultInteraction → ℤ → List InteractionResult
reported clients [] id = []
reported clients (m ∷ ms) id = reported_one clients m id ++ reported clients ms id

module _ (clients : List RemoteClient) where
  reads_one :
      (m : MsgResultInteraction)
      → IsPlaced clients m
      → Parses decode_result (frame (result_chunks m)) (interaction m)
  reads_one m h =
      rw (received_result-Within m h.client h.ikind) at
        (reads_result m h.typed (Within-Below _ _ h.client, Within-Below _ _ h.ikind))

  collect_one-record :
      (m : MsgResultInteraction) (r : SecondaryResult)
      → IsPlaced clients m
      → collect_one clients m r ≡ ok (record_one clients r m)
  collect_one-record m r h =
      collect_one-named clients m r h.kinds h.named ∙ ap ok (rw (h.named, record_one))

  reads-All :
      (fuel : ℕ) (r : SecondaryResult) (ms : List MsgResultInteraction)
      → length ms < fuel
      → All (IsPlaced clients) ms
      → Parses (collect_loop fuel clients r) (stream ms) (record_all clients r ms)
  unfolding collect_loop record_all
  reads-All zero r ms h placed = elim h [ ]
  reads-All (suc fuel) r [] h placed = Parses-bind_end _ reads_done (Parses-pure r)
  reads-All (suc fuel) r (m ∷ ms) h placed = Parses-bind _ (reads_one m placed.0) (
      Parses-bind _ (Parses-lift _ (record_one clients r m) (collect_one-record m r placed.0))
        (reads-All fuel _ ms (omega arith) placed.1))

if-append {ℓ} :
    {A : Type ℓ} (b : Bool) (xs ys : List A)
    → (if b then xs ++ ys else xs) ≡ xs ++ (if b then ys else [])
if-append true xs ys = refl
if-append false xs ys = sym (append-nil xs)

-- A result is recorded for its client alone.
interactions_of-record_one :
    (clients : List RemoteClient) (r : SecondaryResult) (m : MsgResultInteraction) (id : ℤ)
    → IsIndexed r
    → IsIndexed (record_one clients r m)
      × (interactions_of (record_one clients r m) id
          ≡ interactions_of r id ++ reported_one clients m id)
interactions_of-record_one clients r m id h = elim (Option-cases (names clients m)) [
  | inl nobody ↦ rw (nobody, record_one, reported_one) (h, sym (append-nil _))
  | inr (p, named) ↦
      rw (named, record_one, reported_one)
        (
          add_result-IsIndexed m.index p.0 r h (result_of p.1 m),
          interactions_of-add_result m.index p.0 r h (result_of p.1 m) id
              ∙ if-append (eq_ℤ m.index id) _ _,
        )
]

interactions_of-record_all :
    (clients : List RemoteClient) (r : SecondaryResult) (ms : List MsgResultInteraction) (id : ℤ)
    → IsIndexed r
    → interactions_of (record_all clients r ms) id ≡ interactions_of r id ++ reported clients ms id
unfolding record_all reported
interactions_of-record_all clients r [] id h = sym (append-nil _)
interactions_of-record_all clients r (m ∷ ms) id h =
    let (h', one) = interactions_of-record_one clients r m id h in
    interactions_of-record_all clients (record_one clients r m) ms id h'
    ∙ rw one
        (append_assoc (interactions_of r id) (reported_one clients m id) (reported clients ms id))

stream_long : (ms : List MsgResultInteraction) → length ms ≤ length (stream ms)
unfolding result_chunks byte
stream_long [] = omega arith
stream_long (m ∷ ms) =
    omega (arith, stream_long ms, length-append (frame (result_chunks m)) (stream ms))

-- When the stream holds results that name clients of the primary and kinds of theirs, by numbers
-- that fit the format and with times of 64 bits, and the end marker behind them, `collect` takes
-- exactly these bytes, and records for every client its own results, in the order in which they
-- came.
pub collect-reported :
    (s : RemoteSecondary) (ms : List MsgResultInteraction) (rest : Bytes)
    → All (IsPlaced s.clients) ms
    → (r : SecondaryResult) × (collect s (stream ms ++ rest) ≡ ok (r, rest))
      × ((id : ℤ) → interactions_of r id ≡ reported s.clients ms id)
unfolding collect
collect-reported s ms rest h =
    let start = new_secondary_result s.addr s.tags in
    let enough : length ms < suc (length (stream ms ++ rest)) =
      omega (arith, stream_long ms, length-append (stream ms) rest) in
    (
      record_all s.clients start ms,
      (reads-All s.clients _ start ms enough h).run rest,
      λ id.
          interactions_of-record_all s.clients start ms id (IsIndexed-new s.addr s.tags)
          ∙ rw interactions_of-new,
    )
