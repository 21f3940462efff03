-- ===== src/Tests/Workload.antt =====
-- The setup, the samples, the views and the merged streams of core at concrete inputs.
use diablo.Prelude.{◌≡◌, refl, none, List, [], ◌∷◌, ◌++◌, Bytes, bytes_eq, map, length, arith}
use mathlib.Core.List.{Perm}
use diablo.Wire.Errors.{ok}
use diablo.Random.{
  Uniform, regular, loop, copy, select, select_at, event, is_regular, discard, restart,
}
use diablo.Random.Events.{events_left, mem-identity}
use diablo.Variable.{get_variable}
use diablo.Random.Draws.{left}
use diablo.Sample.{get, new_filtered_sample}
use diablo.Sample.Filtered.{keep_if, satisfies, new_filtered_sample-keep_if}
use diablo.Setup.{
  SetupConfig, ParsedEndpoint, build_parsed_setup, all_endpoints, count_endpoints,
  build_parsed_setup-endpoints,
}
use diablo.View.{parse_view, view_loop, check_view}
use diablo.View.Addresses.{address_at, parse_view-addresses}

abbrev config : SetupConfig
config = record {
  sysname = 110 ∷ [];
  parameters = [];
  endpoints =
      record { addresses = (49 ∷ []) ∷ (50 ∷ []) ∷ []; tags = (97 ∷ []) ∷ [] }
      ∷ record { addresses = (51 ∷ []) ∷ []; tags = [] }
      ∷ [];
}

build_parsed_setup-endpoints_example :
    ((build_parsed_setup config).sysname ≡ config.sysname)
    × ((build_parsed_setup config).parameters ≡ config.parameters)
    × ((build_parsed_setup config).endpoints ≡ all_endpoints config.endpoints)
    × (length (build_parsed_setup config).endpoints ≡ count_endpoints 0 config.endpoints)
build_parsed_setup-endpoints_example = build_parsed_setup-endpoints config

abbrev sample : List ParsedEndpoint
sample = all_endpoints config.endpoints

abbrev tags_of : ParsedEndpoint → List Bytes
tags_of ep = ep.tags

-- A filter that is a literal string.
new_filtered_sample-keep_if_example :
    new_filtered_sample bytes_eq tags_of ((97 ∷ []) ∷ []) sample
    ≡ keep_if (satisfies bytes_eq tags_of ((97 ∷ []) ∷ [])) sample
new_filtered_sample-keep_if_example =
    new_filtered_sample-keep_if bytes_eq tags_of ((97 ∷ []) ∷ []) sample

-- A variable that was declared over the three endpoints, which has no slice of values.
abbrev declared_view : Uniform
declared_view = record { rtype = regular; size = 3; values = none }

parse_view-addresses_example :
    (addrs : List Bytes) × (parse_view sample ((7 ∷ 0 ∷ 5 ∷ []) ++ 3 ∷ []) declared_view ≡ ok addrs)
    × Perm (map (address_at sample) (events_left declared_view)) addrs
parse_view-addresses_example =
    parse_view-addresses sample declared_view (7 ∷ 0 ∷ 5 ∷ []) 3 [] (omega arith) tt
      (mem-identity 0 3) refl

-- An iterator that has one of its three events left.
one_left : parse_view sample (7 ∷ 3 ∷ []) (left loop 1 (2 ∷ 0 ∷ 1 ∷ [])) ≡ ok ((51 ∷ []) ∷ [])
unfolding parse_view view_loop get_variable select copy select_at event is_regular discard get
    restart check_view
one_left = refl
