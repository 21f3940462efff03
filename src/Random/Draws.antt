-- ===== src/Random/Draws.antt =====
-- The events of a random variable that happen once, or all before any happens again.
use diablo.Prelude.{
  ℕ, zero, suc, ◌-◌, ◌%◌, ◌==◌, ◌≤◌, ◌<◌, ◌≡◌, refl, ◌∙◌, false, some, List, [], ◌∷◌, length,
  length-set, get_elem?, get_elem?-some, set, take, arith,
}
use mathlib.Core.List.{Perm}
use mathlib.Core.List.Perm
use native.Mathlib.Nat.{mod-lt}
use diablo.Wire.Errors.{ok}
use diablo.Random.{
  VariableType, Uniform, is_regular, restart, event, discard, select_at, select, draws,
}
use diablo.Random.Swap.{take-exchange, exchange}

-- An iterator or a loop with `suc size` events left in front of the others.
abbrev pub left : VariableType → ℕ → List ℕ → Uniform
left rtype size vs = record { rtype = rtype; size = size; values = some vs }

select-run :
    (rtype : VariableType) (size : ℕ) (vs : List ℕ) (draw : ℕ) {v last : ℕ}
    → is_regular rtype ≡ false
    → get_elem? vs (draw % suc size) ≡ some v
    → get_elem? vs size ≡ some last
    → select draw (left rtype (suc size) vs)
      ≡ (ok v, restart rtype size (set (set vs (draw % suc size) last) size v))
unfolding select select_at discard event
select-run rtype size vs draw h at_i at_last =
    let same : suc size - 1 ≡ size = omega arith in
    let ne : (suc size == 0) ≡ false = ground arith in
    rw (at_i, select, select_at, event)
      (rw (h, select_at) (rw (same, discard) (rw (at_last, discard) (rw (ne, same) refl))))

-- What one `Select` leaves: the event out of the first places, and all events in some order.
select-left :
    (rtype : VariableType) (size : ℕ) (vs : List ℕ) (draw : ℕ)
    → is_regular rtype ≡ false
    → size < length vs
    → (v : ℕ) × (vs' : List ℕ) × (select draw (left rtype (suc size) vs)
        ≡ (ok v, restart rtype size vs'))
      × Perm (take (suc size) vs) (v ∷ take size vs')
      × Perm vs vs'
      × (length vs' ≡ length vs)
select-left rtype size vs draw h fits =
    let i = draw % suc size in
    let below : i < suc size = mod-lt draw (omega arith) in
    let small : i ≤ size = omega arith in
    let (v, at_i) = get_elem?-some vs i (omega arith) in
    let (last, at_last) = get_elem?-some vs size fits in
    let vs' = set (set vs i last) size v in
    (
      v,
      vs',
      select-run rtype size vs draw h at_i at_last,
      take-exchange vs i size small at_i at_last,
      exchange vs i size small at_i at_last,
      length-set (set vs i last) size v ∙ length-set vs i last,
    )

draws-step :
    (r : ℕ) (rs : List ℕ) (d d' d'' : Uniform) {v : ℕ} {vs : List ℕ}
    → select r d ≡ (ok v, d')
    → draws rs d' ≡ (ok vs, d'')
    → draws (r ∷ rs) d ≡ (ok (v ∷ vs), d'')
unfolding draws
draws-step r rs d d' d'' e e' = rw (e, draws) (rw e (rw (e', draws) (rw e (rw e' refl))))

-- As many of them as there are events left.
pub draws-left :
    (rtype : VariableType) (rs : List ℕ) (size : ℕ) (vs : List ℕ)
    → is_regular rtype ≡ false
    → length rs ≡ suc size
    → size < length vs
    → (out : List ℕ) × (vs' : List ℕ) × (draws rs (left rtype (suc size) vs)
        ≡ (ok out, restart rtype 0 vs'))
      × Perm (take (suc size) vs) out
      × Perm vs vs'
      × (length vs' ≡ length vs)
unfolding draws restart
draws-left rtype [] size vs h n fits = let no : ⊥ = omega arith in absurd no
draws-left rtype (r ∷ []) zero vs h n fits =
    let (v, vs', e, p, q, k) = select-left rtype 0 vs r h fits in
    (v ∷ [], vs', rw (e, draws) (rw e refl), p, q, k)
draws-left rtype (r ∷ r' ∷ rs) zero vs h n fits = let no : ⊥ = omega arith in absurd no
draws-left rtype (r ∷ []) (suc size) vs h n fits = let no : ⊥ = omega arith in absurd no
draws-left rtype (r ∷ r' ∷ rs) (suc size) vs h n fits =
    let (v, vs', e, p, q, k) = select-left rtype (suc size) vs r h fits in
    let (out, vs'', e', p', q', k') =
      draws-left rtype (r' ∷ rs) size vs' h (omega arith) (omega arith) in
    (
      v ∷ out,
      vs'',
      draws-step r (r' ∷ rs) _ _ _ e e',
      Perm.trans p (Perm.cons v p'),
      Perm.trans q q',
      k' ∙ k,
    )
