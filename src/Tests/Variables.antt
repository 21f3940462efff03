-- ===== src/Tests/Variables.antt =====
-- Scopes, constants, the order of triggers and the handshake at concrete inputs.
use diablo.Prelude.{
  ℕ, ◌≡◌, ◌≤◌, refl, some, List, [], ◌∷◌, ◌++◌, Bytes, bytes_key, bytes_eq, pos, Map, lookup,
  length, DistinctKeys, if◌then◌else◌, arith, none,
}
use diablo.Wire.Errors.{Result, ok}
use diablo.Wire.Sink.{Sink, sent, guarded, emit, write, then_write}
use diablo.Wire.Source.{◌>>=◌, read_full}
use diablo.Wire.Little.{byte, read_little, from_little}
use diablo.Float.{Float64, is_nan, lt_float}
use diablo.Message.Params.{MsgPrimaryParameters}
use diablo.Message.Params.RoundTrip.{IsPrimaryParameters}
use diablo.Primary.{new_remote_secondary}
use diablo.Session.Handshake.{new_runtime, new_runtime-new_remote_secondary}
use diablo.Secondary.{Blockchain, RuntimeInteraction}
use diablo.Schedule.{Clock, run, insert_by, sort_onto, slice_stable, trigger_loop, wait_for}
use diablo.Message.Prepare.{done, encode_prepare}
use diablo.Message.Start.{decode_start}
use diablo.Variable.{new_int_immediate, read_variable}
use diablo.Scope.{
  BasicScopeEntry, Scope, get_entry, alias_get_resource, required, parse_scope, integer_domain,
}
use diablo.Scope.Store.{get_entry-alias_get_resource}
use diablo.Scope.Names.{Declares, AreDistinct, parse_scope-Declares}

abbrev four : BasicScopeEntry
four = record { variable = new_int_immediate integer_domain (pos 4); domain = integer_domain }

abbrev two_scopes : Scope
two_scopes = [] ∷ ((110 ∷ [], four) ∷ []) ∷ []

four_there : get_entry (110 ∷ []) two_scopes ≡ some four
unfolding get_entry lookup
four_there = refl

get_entry-alias_get_resource_example :
    ((alias_get_resource 7 integer_domain (110 ∷ []) two_scopes).0
      ≡ required (read_variable four.variable 7).0)
    × ((other : Bytes)
        → get_entry other (alias_get_resource 7 integer_domain (110 ∷ []) two_scopes).1 ≡ (
            if bytes_eq (110 ∷ []) other
            then some (record four { variable = (read_variable four.variable 7).1 })
            else get_entry other two_scopes))
get_entry-alias_get_resource_example =
    get_entry-alias_get_resource 7 integer_domain (110 ∷ []) two_scopes four four_there refl

-- A child that names the constant four.
abbrev names_four : Bytes → Scope → Result (Bytes × BasicScopeEntry) × Scope
names_four name scope = (ok (name, four), scope)

abbrev two_names : List Bytes
two_names = (97 ∷ []) ∷ (98 ∷ []) ∷ []

abbrev with_both : Scope
with_both = ((97 ∷ [], four) ∷ (98 ∷ [], four) ∷ []) ∷ two_scopes

parse_scope-Declares_example :
    (parse_scope names_four two_names [] ([] ∷ two_scopes) ≡ ok with_both
      → (names : List Bytes) × Declares names_four two_names ([] ∷ two_scopes) names with_both
        × AreDistinct names)
    × ((names : List Bytes)
        → Declares names_four two_names ([] ∷ two_scopes) names with_both
        → AreDistinct names
        → parse_scope names_four two_names [] ([] ∷ two_scopes) ≡ ok with_both)
parse_scope-Declares_example = parse_scope-Declares names_four two_names ([] ∷ two_scopes) with_both

-- A blockchain whose clients are their views.
abbrev plain : Blockchain
plain = record {
  Client = List Bytes;
  Payload = Bytes;
  new_client = λ params view. ok view;
  decode_payload = λ c payload. ok payload;
}

abbrev due_at : ℕ → RuntimeInteraction plain
due_at t = record {
  client = record { id = pos 0; inner = [] };
  ikind = pos 0;
  sched_time = t;
  opaque = [];
}

abbrev three_due : List (RuntimeInteraction plain)
three_due = due_at 5 ∷ due_at 3 ∷ due_at 5 ∷ []

-- A clock that stands still but for the sleeps; its state is the time.
abbrev shown : ℕ → Float64
shown t = if is_nan t then 0 else t

abbrev still : Clock
still = record { State = ℕ; read = λ t. (shown t, t); sleep = λ now next t. next }

abbrev primary_end : Sink
primary_end = record { written = []; room = 4 }

abbrev start_bytes : Bytes
start_bytes = 9 ∷ 0 ∷ 0 ∷ 0 ∷ 0 ∷ 0 ∷ 0 ∷ 0 ∷ 77 ∷ []

abbrev primary_told : Sink
primary_told = sent (encode_prepare done primary_end).1.written primary_end

done_sent : encode_prepare done primary_end ≡ (none, primary_told)
unfolding encode_prepare guarded emit write then_write byte
done_sent = refl

start_read : decode_start start_bytes ≡ ok (record { duration = 9 }, 77 ∷ [])
unfolding decode_start read_little ◌>>=◌ read_full from_little
start_read = refl

-- With the clock at 4, the interaction of time 3 is late, and there is one sleep for the others.
triggers_at :
    run plain still three_due 4 start_bytes primary_end
    ≡ ok ((due_at 3, 4) ∷ (due_at 5, 5) ∷ (due_at 5, 5) ∷ [], 5, 77 ∷ [], primary_told)
unfolding run slice_stable sort_onto insert_by trigger_loop wait_for lt_float
triggers_at = rw (run, done_sent) (rw (start_read, done_sent) refl)

abbrev known_parameters : MsgPrimaryParameters
known_parameters = record {
  sysname = 110 ∷ [];
  chain_params = (97 ∷ [], 49 ∷ []) ∷ [];
  max_delay = 1;
  max_skew = 2;
}

known_typed : IsPrimaryParameters known_parameters
unfolding DistinctKeys lookup
known_typed = record { keys = (refl, tt); delay = omega arith; skew = omega arith }

abbrev systems : Map Bytes ℕ
systems = (110 ∷ [], 8) ∷ []

system_known : lookup (110 ∷ []) systems ≡ some 8
unfolding lookup
system_known = refl

new_runtime-new_remote_secondary_example :
    (p q : Bytes) × ((out out' : Sink) (rest rest' : Bytes)
      → length p ≤ out.room
      → length q ≤ out'.room
      → (new_runtime ((116 ∷ []) ∷ []) systems out' (p ++ rest')
          ≡ ok (record { params = known_parameters; chain = 8 }, sent q out', rest'))
        × (new_remote_secondary (65 ∷ []) known_parameters out (q ++ rest)
            ≡ ok (
              record {
                addr = 65 ∷ [];
                tags = (116 ∷ []) ∷ (65 ∷ []) ∷ [];
                clients = [];
                out = sent p out;
              },
              rest,
            )))
new_runtime-new_remote_secondary_example =
    new_runtime-new_remote_secondary (65 ∷ []) known_parameters ((116 ∷ []) ∷ []) systems 8
      known_typed (omega arith, omega arith, ((omega arith, omega arith), tt))
      (omega arith, (omega arith, tt)) system_known
