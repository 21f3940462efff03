-- ===== src/Setup.antt =====
-- core/setup.go: the endpoints of a setup file, from its groups of addresses.
use diablo.Prelude.{
  ℕ, ◌+◌, ◌≡◌, refl, ap, ◌∙◌, sym, List, [], ◌∷◌, ◌++◌, map, Bytes, Map, length, length-append,
  length-map, arith,
}
use mathlib.Core.List.{append_assoc, append-nil}

pub record SetupGroupConfig : Type 0 where
  pub addresses : List Bytes
  pub tags : List Bytes

pub record SetupConfig : Type 0 where
  pub sysname : Bytes
  pub parameters : Map Bytes Bytes
  pub endpoints : List SetupGroupConfig

pub record ParsedEndpoint : Type 0 where
  pub address : Bytes
  pub tags : List Bytes

pub record ParsedSetup : Type 0 where
  pub sysname : Bytes
  pub parameters : Map Bytes Bytes
  pub endpoints : List ParsedEndpoint

abbrev pub new_parsed_endpoint : List Bytes → Bytes → ParsedEndpoint
new_parsed_endpoint tags address = record { address = address; tags = tags }

-- The inner loop appends an endpoint for each address of the group.
unfoldable pub add_group : List Bytes → List Bytes → List ParsedEndpoint → List ParsedEndpoint
add_group [] tags eps = eps
add_group (addr ∷ addrs) tags eps = add_group addrs tags (eps ++ new_parsed_endpoint tags addr ∷ [])

unfoldable pub add_groups : List SetupGroupConfig → List ParsedEndpoint → List ParsedEndpoint
add_groups [] eps = eps
add_groups (g ∷ gs) eps = add_groups gs (add_group g.addresses g.tags eps)

-- The capacity that the slice of endpoints is made with.
unfoldable pub count_endpoints : ℕ → List SetupGroupConfig → ℕ
count_endpoints nep [] = nep
count_endpoints nep (g ∷ gs) = count_endpoints (nep + length g.addresses) gs

unfoldable pub build_parsed_setup : SetupConfig → ParsedSetup
build_parsed_setup config = record {
  sysname = config.sysname;
  parameters = config.parameters;
  endpoints = add_groups config.endpoints [];
}

-- The endpoints of a group, and of all groups.
abbrev pub endpoints_of : SetupGroupConfig → List ParsedEndpoint
endpoints_of g = map (new_parsed_endpoint g.tags) g.addresses

abbrev pub all_endpoints : List SetupGroupConfig → List ParsedEndpoint
all_endpoints [] = []
all_endpoints (g ∷ gs) = endpoints_of g ++ all_endpoints gs

add_group-append :
    (addrs tags : List Bytes) (eps : List ParsedEndpoint)
    → add_group addrs tags eps ≡ eps ++ map (new_parsed_endpoint tags) addrs
unfolding add_group
add_group-append [] tags eps = sym (append-nil eps)
add_group-append (a ∷ addrs) tags eps =
    add_group-append addrs tags (eps ++ new_parsed_endpoint tags a ∷ []) ∙ append_assoc eps _ _

add_groups-append :
    (gs : List SetupGroupConfig) (eps : List ParsedEndpoint)
    → add_groups gs eps ≡ eps ++ all_endpoints gs
unfolding add_groups
add_groups-append [] eps = sym (append-nil eps)
add_groups-append (g ∷ gs) eps =
    add_groups-append gs (add_group g.addresses g.tags eps)
    ∙ rw (add_group-append g.addresses g.tags eps)
        (append_assoc eps (endpoints_of g) (all_endpoints gs))

count_endpoints-length :
    (gs : List SetupGroupConfig) (n : ℕ) → count_endpoints n gs ≡ n + length (all_endpoints gs)
unfolding count_endpoints
count_endpoints-length [] n = omega arith
count_endpoints-length (g ∷ gs) n = omega (
  arith,
  count_endpoints-length gs (n + length g.addresses),
  length-append (endpoints_of g) (all_endpoints gs),
  length-map (new_parsed_endpoint g.tags) g.addresses,
)

-- A setup has the name and the parameters of its file, and an endpoint for every address of every
-- group, in the order of the file and with the tags of its group; and the slice of endpoints is made
-- with exactly the capacity that it needs.
pub build_parsed_setup-endpoints :
    (config : SetupConfig)
    → ((build_parsed_setup config).sysname ≡ config.sysname)
      × ((build_parsed_setup config).parameters ≡ config.parameters)
      × ((build_parsed_setup config).endpoints ≡ all_endpoints config.endpoints)
      × (length (build_parsed_setup config).endpoints ≡ count_endpoints 0 config.endpoints)
unfolding build_parsed_setup
build_parsed_setup-endpoints config =
    let e = add_groups-append config.endpoints [] in
    let k = ap length e in (refl, refl, e, omega (arith, count_endpoints-length config.endpoints 0))
