-- ===== src/View.antt =====
-- core/benchmark.go: `parseView`, which turns a variable over endpoints into the addresses that a
-- client knows.
pub mod Addresses
use diablo.Prelude.{
  ℕ, zero, suc, ◌+◌, ◌≤◌, ◌<◌, ◌≡◌, ◌≢◌, refl, ap, ◌∙◌, sym, Option, none, some, List, [], ◌∷◌,
  ◌++◌, map, Bytes, length, take, arith,
}
use diablo.Wire.Errors.{Error, Result, ok, err, out_of_fuel, variable_exhausted}
use diablo.Random.{VariableType, once, Uniform, select, copy, draws}
use diablo.Random.Draws.{left}
use diablo.Random.Events.{draws-copy}
use diablo.Sample.{get}
use diablo.Variable.{get_variable}
use diablo.Setup.{ParsedEndpoint}
use mathlib.Core.List.{Perm}
use mathlib.Core.List.Perm

-- The loop of `parseView`, up to the first nil.
unfoldable pub view_loop : List ParsedEndpoint → List ℕ → Uniform → Result (List Bytes)
view_loop sample [] d = err out_of_fuel
view_loop sample (draw ∷ rs) d =
    let (element, d') = get_variable (get sample) draw d in
    let rest = view_loop sample rs d' in
    elim element [
      | err e ↦ err e
      | ok none ↦ ok []
      | ok (some ep) ↦ elim rest [ err e ↦ err e | ok addrs ↦ ok (ep.address ∷ addrs) ]
    ]

unfoldable pub check_view : List Bytes → Result (List Bytes)
check_view [] = err variable_exhausted
check_view (a ∷ addrs) = ok (a ∷ addrs)

-- `parseView` of a variable: its events left, as an iterator.
unfoldable pub parse_view : List ParsedEndpoint → List ℕ → Uniform → Result (List Bytes)
parse_view sample rs view = elim (view_loop sample rs (copy once view)) [
  | err e ↦ err e
  | ok addrs ↦ check_view addrs
]
