-- ===== src/Declare/Integers.antt =====
-- core/builtin.go: the factory of integer samples, and the variables that are declared over them.
use diablo.Prelude.{
  ℕ, suc, ◌%◌, ◌^◌, ◌<◌, ◌≤◌, ◌≡◌, refl, ap, ◌∙◌, true, Option, some, [], ◌∷◌, Bytes, bytes_key,
  bytes_eq, bytes_eq_iff, ℤ, pos, lookup, insert, if◌then◌else◌,
}
use diablo.Wire.Errors.{Error, Result, ok, err, and_then}
use diablo.Random.{regular, Uniform}
use diablo.Variable.{Opaque, VariableImpl, int_sample, plus, try_get_int, try_as, as_int}
use diablo.Variable.Immediate.{IsInt}
use diablo.Variable.Range.{
  new_int_sample, new_int_sample-size, over_integers, read-regular, to_int-eq, IsInt-plus, draw-lt,
}
use diablo.Scope.{
  BasicScopeEntry, Scope, get_entry, add_entry, parse_scope, alias_get_int, alias_int,
  alias_variable, read_alias, required, put_variable, integer_domain,
}
use diablo.Expression.{Expression, name, etype, try_field, field_of, get_int}
use diablo.Declare.Texts.{from_text, to_text, seed_text, sample_text, random_text}
use diablo.Declare.{
  Sample, variable_type, random_of, new_distribution, new_entry, parse_sample, parse_definition,
  parse_variable,
}
use diablo.Declare.Copies.{field_of-try_field, seed_of-none}

module _ (draw : Expression → ℕ) where
  -- `intSampleFactory.Instance`
  unfoldable pub int_sample_of : Expression → Scope → Result Sample × Scope
  unfolding new_int_sample
  int_sample_of x scope =
      let (from, scope') = get_int (draw (field_of from_text x)) scope (field_of from_text x) in
      let (to, scope'') = get_int (draw (field_of to_text x)) scope' (field_of to_text x) in
      elim from [
        | err e ↦ (err e, scope')
        | ok f ↦ elim to [
          | err e ↦ (err e, scope'')
          | ok t ↦
              let s = new_int_sample f t in
              (ok (record { size = s.size; element = int_sample s.offset }), scope'')
        ]
      ]

  -- `sampleFactory`, with the other samples of the system and those of the blockchain.
  unfoldable pub sample_factory_of :
      (Bytes → Option (Expression → Scope → Result Sample × Scope))
      → Bytes
      → Option (Expression → Scope → Result Sample × Scope)
  sample_factory_of others domain =
      if bytes_eq domain integer_domain then some int_sample_of else others domain

-- The entry of a variable over so many integers from `from` on.
abbrev integers : ℤ → ℕ → BasicScopeEntry
integers from size = record {
  variable = over_integers integer_domain from size;
  domain = integer_domain;
}

read_integers :
    (from : ℤ) (count r : ℕ)
    → IsInt from
    → IsInt (plus from count)
    → try_get_int r (over_integers integer_domain from (suc count))
      ≡ (ok (some (plus from (r % suc count))), over_integers integer_domain from (suc count))
unfolding try_get_int try_as as_int
read_integers from count r from_int to_int =
    ap
      (λ (d : Result (Option Opaque) × Uniform). (
        try_as as_int d.0,
        record (over_integers integer_domain from (suc count)) { distrib = d.1 },
      ))
      (read-regular from count r)
    ∙ ap (λ (i : ℤ). (ok (some i), over_integers integer_domain from (suc count)))
        (to_int-eq (plus from (r % suc count))
          (IsInt-plus from count (r % suc count) from_int to_int (draw-lt r count)))

module _ (n : Bytes) (parent : Scope) (entry : BasicScopeEntry) where
  abbrev alone : Scope
  alone = ((n, entry) ∷ []) ∷ parent

  lookup_alone : lookup n ((n, entry) ∷ []) ≡ some entry
  unfolding lookup
  lookup_alone = let itself = (bytes_eq_iff n n).1 refl in rw (lookup, itself) refl

  get_entry-alone : get_entry n alone ≡ some entry
  unfolding get_entry
  get_entry-alone = rw (get_entry, lookup_alone) refl

  put_variable-alone : put_variable n entry.variable alone ≡ alone
  unfolding put_variable insert
  put_variable-alone =
      let itself = (bytes_eq_iff n n).1 refl in
      rw (put_variable, lookup_alone) (rw (insert, itself) refl)

  -- Reading an integer through the alias, where the variable is the same afterwards.
  alias_get_int-alone :
      (r : ℕ) (i : ℤ)
      → bytes_eq entry.domain integer_domain ≡ true
      → try_get_int r entry.variable ≡ (ok (some i), entry.variable)
      → alias_get_int r n alone ≡ (ok i, alone)
  unfolding alias_get_int alias_int alias_variable read_alias required
  alias_get_int-alone r i accepted drawn =
      let found : alias_int n alone ≡ ok entry.variable =
        rw (alias_int, alias_variable, get_entry-alone) (rw accepted refl) in
      rw (alias_get_int, found)
        (ap (λ (d : Result (Option ℤ) × VariableImpl). (required d.0, put_variable n d.1 alone))
            drawn
          ∙ ap (λ s. (ok i, s)) put_variable-alone)

module _ (draw : Expression → ℕ)
    (others : Bytes → Option (Expression → Scope → Result Sample × Scope)) (x f : Expression)
    (scope : Scope) (n : Bytes) (from : ℤ) (count : ℕ) {e1 e2 : Error} (named : name x ≡ ok n)
    (typed : variable_type (etype x) ≡ ok regular) (no_seed : try_field seed_text x ≡ err e1)
    (sampled : try_field sample_text x ≡ ok f) (integer : etype f ≡ ok integer_domain)
    (no_random : try_field random_text x ≡ err e2)
    (from_there : get_int (draw (field_of from_text f)) scope (field_of from_text f)
      ≡ (ok from, scope))
    (to_there : get_int (draw (field_of to_text f)) scope (field_of to_text f)
      ≡ (ok (plus from count), scope))
    (few : suc count < 2 ^ 63) where
  sample_there :
      int_sample_of draw f scope
      ≡ (ok (record { size = pos (suc count); element = int_sample from }), scope)
  unfolding int_sample_of
  sample_there =
      let same = ap (λ (r : Result ℤ × Scope). r.1) from_there in
      rw (int_sample_of, from_there, same)
        (rw (to_there, same, ap (λ (r : Result ℤ × Scope). r.1) to_there)
          (rw (new_int_sample-size from count few) refl))

  random_there : random_of x ≡ ok tt
  unfolding random_of
  random_there = rw (random_of, no_random) refl

  sample_field : field_of sample_text x ≡ f
  sample_field = field_of-try_field sample_text x f sampled

  sample_read :
      int_sample_of draw (field_of sample_text x) scope
      ≡ (ok (record { size = pos (suc count); element = int_sample from }), scope)
  sample_read = rw sample_field sample_there

  parsed_sample :
      parse_sample (sample_factory_of draw others) draw n regular x scope
      ≡ (ok (n, integers from (suc count)), scope)
  unfolding parse_sample sample_factory_of new_entry new_distribution
  parsed_sample =
      rw (parse_sample, sample_field, integer)
        (ap
            (λ (r : Result Sample × Scope). (
              and_then r.0 (λ s.
                  and_then (random_of x)
                    (λ u. and_then (new_entry integer_domain regular s) (λ entry. ok (n, entry)))),
              r.1,
            ))
            sample_read
          ∙ rw random_there refl)

  parsed :
      parse_variable (sample_factory_of draw others) draw x scope
      ≡ (ok (n, integers from (suc count)), scope)
  unfolding parse_variable parse_definition
  parsed =
      let seed = seed_of-none (sample_factory_of draw others) draw x scope no_seed in
      rw (parse_variable, named, typed, seed)
        (rw (parse_definition, sampled)
          (ap
              (λ (r : Result {0} Unit × Scope).
                parse_sample (sample_factory_of draw others) draw n regular x r.1)
              seed
            ∙ parsed_sample))

-- A declaration in a scope of its own, without a type and a seed and with a sample of the integers from
-- `from` to `from + count`, both ints and fewer than 2 ^ 63, is accepted; and an alias that names it gives
-- an integer of this range, whatever number is drawn, and leaves the scope as it is.
pub parse_variable-integers :
    (draw : Expression → ℕ) (others : Bytes → Option (Expression → Scope → Result Sample × Scope))
    (x f : Expression) (parent : Scope) (n : Bytes) (from : ℤ) (count r : ℕ) {e1 e2 : Error}
    → name x ≡ ok n
    → variable_type (etype x) ≡ ok regular
    → try_field seed_text x ≡ err e1
    → try_field sample_text x ≡ ok f
    → etype f ≡ ok integer_domain
    → try_field random_text x ≡ err e2
    → get_int (draw (field_of from_text f)) ([] ∷ parent) (field_of from_text f)
      ≡ (ok from, [] ∷ parent)
    → get_int (draw (field_of to_text f)) ([] ∷ parent) (field_of to_text f)
      ≡ (ok (plus from count), [] ∷ parent)
    → suc count < 2 ^ 63
    → IsInt from
    → IsInt (plus from count)
    → (result : Scope) × (parse_scope
          (parse_variable (sample_factory_of draw others) draw)
          (x ∷ [])
          []
          ([] ∷ parent)
        ≡ ok result)
      × (alias_get_int r n result ≡ (ok (plus from (r % suc count)), result))
      × (r % suc count ≤ count)
unfolding parse_scope lookup insert add_entry
parse_variable-integers draw others x f parent n from count r named typed no_seed sampled integer
      no_random from_there to_there few from_int to_int =
    let p =
      parsed draw others x f ([] ∷ parent) n from count named typed no_seed sampled integer
        no_random from_there to_there few in
    (
      ((n, integers from (suc count)) ∷ []) ∷ parent,
      rw (parse_scope, p)
          (ap
            (λ (r : Result (Bytes × BasicScopeEntry) × Scope).
              ok (add_entry n (integers from (suc count)) r.1))
            p),
      alias_get_int-alone n parent (integers from (suc count)) r (plus from (r % suc count)) refl
          (read_integers from count r from_int to_int),
      draw-lt r count,
    )
