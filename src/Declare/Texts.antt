-- ===== src/Declare/Texts.antt =====
-- The names of the fields and types in a declaration, of core/variable.go and core/system.go.
use diablo.Prelude.{[], ◌∷◌, Bytes}

abbrev pub rvar_text : Bytes
rvar_text = 114 ∷ 118 ∷ 97 ∷ 114 ∷ []

abbrev pub iter_text : Bytes
iter_text = 105 ∷ 116 ∷ 101 ∷ 114 ∷ []

abbrev pub loop_text : Bytes
loop_text = 108 ∷ 111 ∷ 111 ∷ 112 ∷ []

abbrev pub seed_text : Bytes
seed_text = 115 ∷ 101 ∷ 101 ∷ 100 ∷ []

abbrev pub sample_text : Bytes
sample_text = 115 ∷ 97 ∷ 109 ∷ 112 ∷ 108 ∷ 101 ∷ []

abbrev pub copy_text : Bytes
copy_text = 99 ∷ 111 ∷ 112 ∷ 121 ∷ []

abbrev pub compose_text : Bytes
compose_text = 99 ∷ 111 ∷ 109 ∷ 112 ∷ 111 ∷ 115 ∷ 101 ∷ []

abbrev pub random_text : Bytes
random_text = 114 ∷ 97 ∷ 110 ∷ 100 ∷ 111 ∷ 109 ∷ []

abbrev pub uniform_text : Bytes
uniform_text = 117 ∷ 110 ∷ 105 ∷ 102 ∷ 111 ∷ 114 ∷ 109 ∷ []

abbrev pub normal_text : Bytes
normal_text = 110 ∷ 111 ∷ 114 ∷ 109 ∷ 97 ∷ 108 ∷ []

abbrev pub from_text : Bytes
from_text = 102 ∷ 114 ∷ 111 ∷ 109 ∷ []

abbrev pub to_text : Bytes
to_text = 116 ∷ 111 ∷ []
