-- ===== src/Wire/Little.antt =====
-- Fixed-size numbers on the wire: single bytes, and `binary.LittleEndian` words.
use diablo.Prelude.{
  ℕ, zero, suc, ◌+◌, ◌*◌, ◌/◌, ◌%◌, ◌^◌, ◌<◌, ◌≡◌, refl, [], ◌∷◌, Bytes, length, arith, ap,
}
use native.Mathlib.Nat.{pow-suc}
use diablo.Wire.Source.{Parser, ◌>>=◌, pure, read_full}

-- `buf[0] = uint8(n)`
unfoldable pub byte : ℕ → Bytes
byte n = n % 256 ∷ []

-- `binary.Write(dest, binary.LittleEndian, v)` for a `v` of `k` bytes
unfoldable pub little : ℕ → ℕ → Bytes
little zero v = []
little (suc k) v = v % 256 ∷ little k (v / 256)

unfoldable pub from_little : Bytes → ℕ
from_little [] = 0
from_little (b ∷ bs) = b + 256 * from_little bs

-- `binary.Read(src, binary.LittleEndian, &v)` for a `v` of `k` bytes
unfoldable pub read_little : ℕ → Parser ℕ
read_little k = do buf ← read_full k; pure (from_little buf)

pub length-little : (k v : ℕ) → length (little k v) ≡ k
unfolding little
length-little zero v = refl
length-little (suc k) v = ap suc (length-little k (v / 256))

pub from_little-little : (k v : ℕ) → v < 256 ^ k → from_little (little k v) ≡ v
unfolding little from_little
from_little-little zero v h = omega arith
from_little-little (suc k) v h =
    let small : v / 256 < 256 ^ k = omega (arith, pow-suc 256 k) in
    rw (from_little-little k (v / 256) small) (omega arith)
