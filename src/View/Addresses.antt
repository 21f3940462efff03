-- ===== src/View/Addresses.antt =====
-- The addresses of a view of core/benchmark.go.
use diablo.Prelude.{
  ℕ, ◌<◌, ◌≡◌, refl, ap, none, some, List, [], ◌∷◌, ◌++◌, map, Bytes, length, length-map, get_elem?,
  get_elem?-some, arith, inl, inr,
}
use mathlib.Core.Path.{subst}
use diablo.Wire.Errors.{Error, ok, err, Result-cases, random_space_exhausted}
use diablo.Random.{Uniform, select, draws}
use diablo.Random.Events.{Covers, events_left, length-first_events, draws-copy}
use diablo.Sample.{get}
use diablo.Setup.{ParsedEndpoint}
use diablo.Variable.{get_variable}
use diablo.View.{view_loop, check_view, parse_view}
use mathlib.Core.List.{Perm, Mem, mem-cons_self, mem-cons_of_mem}
use mathlib.Core.List.Perm

-- The address of an element of the sample.
abbrev pub address_at : List ParsedEndpoint → ℕ → Bytes
address_at sample i = elim (get_elem? sample i) [ none ↦ [] | some ep ↦ ep.address ]

-- Every event is an index of the sample.
abbrev pub AreIndices : List ParsedEndpoint → List ℕ → Type 0
AreIndices sample is = (i : ℕ) → Mem i is → i < length sample

module _ (sample : List ParsedEndpoint) where
  get_drawn :
      (r : ℕ) (d : Uniform) (v : ℕ) (ep : ParsedEndpoint)
      → (select r d).0 ≡ ok v
      → get_elem? sample v ≡ some ep
      → get_variable (get sample) r d ≡ (ok (some ep), (select r d).1)
  unfolding get_variable get
  get_drawn r d v ep e there = rw (e, get_variable) (rw (there, get) refl)

  view_step :
      (r : ℕ) (rs : List ℕ) (d : Uniform) (v : ℕ) (addrs : List Bytes)
      → (select r d).0 ≡ ok v
      → v < length sample
      → view_loop sample rs (select r d).1 ≡ ok addrs
      → view_loop sample (r ∷ rs) d ≡ ok (address_at sample v ∷ addrs)
  unfolding view_loop
  view_step r rs d v addrs e small rest =
      let (ep, there) = get_elem?-some sample v small in
      rw (get_drawn r d v ep e there, view_loop)
        (rw (get_drawn r d v ep e there) (rw (rest, there, address_at) refl))

  view_end :
      (r : ℕ) (rs : List ℕ) (d : Uniform) (e : Error)
      → (select r d).0 ≡ err e
      → view_loop sample (r ∷ rs) d ≡ ok []
  unfolding view_loop get_variable
  view_end r rs d e h = rw (h, view_loop, get_variable) refl

  view_loop-draws :
      (rs : List ℕ) (r : ℕ) (more : List ℕ) (d d' : Uniform) (out : List ℕ)
      → draws rs d ≡ (ok out, d')
      → AreIndices sample out
      → (select r d').0 ≡ err random_space_exhausted
      → view_loop sample (rs ++ r ∷ more) d ≡ ok (map (address_at sample) out)
  unfolding draws
  view_loop-draws [] r more d d' out e small stop =
      let none_drawn : [] ≡ out = cc in
      let same : d' ≡ d = cc in rw (← none_drawn) (view_end r more d _ (rw same at stop))
  view_loop-draws (x ∷ rs) r more d d' out e small stop = elim (Result-cases (select x d).0) [
    | inr (e', failed) ↦ cc (rw (failed, draws) at e)
    | inl (v, drew) ↦ elim (Result-cases (draws rs (select x d).1).0) [
      | inr (e', failed) ↦ cc (rw (drew, failed, draws) at e)
      | inl (vs, rest) ↦
          let h : (ok (v ∷ vs), (draws rs (select x d).1).1) ≡ (ok out, d') =
            rw (drew, rest, draws) at e in
          let all : v ∷ vs ≡ out = cc h in
          let same : (draws rs (select x d).1).1 ≡ d' = cc h in
          let here : draws rs (select x d).1 ≡ (ok vs, d') = λ i. (rest i, same i) in
          rw (← all) (
            view_step x (rs ++ r ∷ more) d v _ drew
              (small v (subst (λ l. Mem v l) all mem-cons_self))
              (view_loop-draws rs r more (select x d).1 d' vs here
                (λ i m. small i (subst (λ l. Mem i l) all (mem-cons_of_mem v m))) stop))
    ]
  ]

nonempty {ℓ} : {A : Type ℓ} {xs ys : List A} → Perm xs ys → 0 < length xs → 0 < length ys
nonempty {ys = []} p h = let none_left = ap length (Perm.eq-nil p) in omega arith
nonempty {ys = y ∷ ys} p h = omega arith

check_view-some : (addrs : List Bytes) → 0 < length addrs → check_view addrs ≡ ok addrs
unfolding check_view
check_view-some [] h = elim h [ ]
check_view-some (a ∷ addrs) h = refl

-- Of a variable of any type over the endpoints of a sample, with or without a slice of values, that has
-- at least one event left, `parseView` makes a view with the address of each event left, each once, in
-- some order, whatever numbers are drawn, of which there are more than events.
pub parse_view-addresses :
    (sample : List ParsedEndpoint) (view : Uniform) (rs : List ℕ) (r : ℕ) (more : List ℕ)
    → 0 < view.size
    → Covers view.size view.values
    → AreIndices sample (events_left view)
    → length rs ≡ view.size
    → (addrs : List Bytes) × (parse_view sample (rs ++ r ∷ more) view ≡ ok addrs)
      × Perm (map (address_at sample) (events_left view)) addrs
unfolding parse_view
parse_view-addresses sample view rs r more pos_size fits small same =
    let (out, d, e, p, stop) = draws-copy view rs fits same in
    let addrs = map (address_at sample) out in
    let ended : (select r d).0 ≡ err random_space_exhausted = ap (λ x. x.0) (stop r) in
    let run =
      view_loop-draws sample rs r more _ d out e (λ i m. small i ((Perm.mem_iff p).1 m)) ended in
    let q = Perm.map (address_at sample) p in
    let k = length-map (address_at sample) (events_left view) in
    let n = length-first_events view.size view.values fits in
    (addrs, rw (run, parse_view) (check_view-some addrs (nonempty q (omega arith))), q)
