-- ===== src/Util.antt =====
-- util/io.go: the readers and writers that the clients of the blockchains chain their calls on. A call
-- on a `monadError` does nothing, so a chain is a sequence that its first error ends: a parser for the
-- reads, the list of its writes for the writes. The byte order is little-endian throughout.
use diablo.Prelude.{ℕ, ◌-◌, ◌^◌, ◌≤◌, ◌<◌, ◌≡◌, [], Bytes, length, ltb, if◌then◌else◌, arith}
use diablo.Wire.Errors.{Result, ok, err, number_too_large}
use diablo.Wire.Source.{Parser, ◌>>=◌, lift, read_full, read_byte}
use diablo.Wire.Little.{byte, little, read_little}
use diablo.Wire.Parses.{
  Parses, Parses-bind_end, Parses-lift, Parses-byte, Parses-little, Parses-read_full,
}

-- The integer types that a value can be stored in.
pub data IntType : Type 0 where
  uint uint8 uint16 uint32 uint64 int int8 int16 int32 int64 : IntType

unfoldable pub max_of : IntType → ℕ
max_of uint = 2 ^ 64 - 1
max_of uint8 = 2 ^ 8 - 1
max_of uint16 = 2 ^ 16 - 1
max_of uint32 = 2 ^ 32 - 1
max_of uint64 = 2 ^ 64 - 1
max_of int = 2 ^ 63 - 1
max_of int8 = 2 ^ 7 - 1
max_of int16 = 2 ^ 15 - 1
max_of int32 = 2 ^ 31 - 1
max_of int64 = 2 ^ 63 - 1

-- `readConvert` of an unsigned value.
unfoldable pub read_convert : IntType → ℕ → Result ℕ
read_convert ptr val = if ltb (max_of ptr) val then err (number_too_large val) else ok val

unfoldable pub read_uint8 : IntType → Parser ℕ
read_uint8 ptr = do val ← read_byte; lift (read_convert ptr val)

unfoldable pub read_uint16 : IntType → Parser ℕ
read_uint16 ptr = do val ← read_little 2; lift (read_convert ptr val)

unfoldable pub read_uint32 : IntType → Parser ℕ
read_uint32 ptr = do val ← read_little 4; lift (read_convert ptr val)

unfoldable pub read_uint64 : IntType → Parser ℕ
read_uint64 ptr = do val ← read_little 8; lift (read_convert ptr val)

-- `ReadBytes` into a slice: a longer one is filled to its end.
unfoldable pub read_bytes : Bytes → ℕ → Parser Bytes
read_bytes ptr n = read_full (if ltb (length ptr) n then n else length ptr)

unfoldable pub write_uint8 : ℕ → Bytes
write_uint8 val = byte val

unfoldable pub write_uint16 : ℕ → Bytes
write_uint16 val = little 2 val

unfoldable pub write_uint32 : ℕ → Bytes
write_uint32 val = little 4 val

unfoldable pub write_uint64 : ℕ → Bytes
write_uint64 val = little 8 val

read_convert-ok : (ptr : IntType) (val : ℕ) → val ≤ max_of ptr → read_convert ptr val ≡ ok val
unfolding read_convert
read_convert-ok ptr val h = ground arith

pub Parses-uint8 :
    (ptr : IntType) (val : ℕ)
    → val < 256
    → val ≤ max_of ptr
    → Parses (read_uint8 ptr) (write_uint8 val) val
unfolding read_uint8 write_uint8
Parses-uint8 ptr val w h =
    Parses-bind_end _ (Parses-byte val w) (Parses-lift _ val (read_convert-ok ptr val h))

pub Parses-uint16 :
    (ptr : IntType) (val : ℕ)
    → val < 2 ^ 16
    → val ≤ max_of ptr
    → Parses (read_uint16 ptr) (write_uint16 val) val
unfolding read_uint16 write_uint16
Parses-uint16 ptr val w h =
    Parses-bind_end _ (Parses-little 2 val w) (Parses-lift _ val (read_convert-ok ptr val h))

pub Parses-uint32 :
    (ptr : IntType) (val : ℕ)
    → val < 2 ^ 32
    → val ≤ max_of ptr
    → Parses (read_uint32 ptr) (write_uint32 val) val
unfolding read_uint32 write_uint32
Parses-uint32 ptr val w h =
    Parses-bind_end _ (Parses-little 4 val w) (Parses-lift _ val (read_convert-ok ptr val h))

pub Parses-uint64 :
    (ptr : IntType) (val : ℕ)
    → val < 2 ^ 64
    → val ≤ max_of ptr
    → Parses (read_uint64 ptr) (write_uint64 val) val
unfolding read_uint64 write_uint64
Parses-uint64 ptr val w h =
    Parses-bind_end _ (Parses-little 8 val w) (Parses-lift _ val (read_convert-ok ptr val h))

-- Into a slice that is nil.
pub Parses-bytes : (n : ℕ) (s : Bytes) → length s ≡ n → Parses (read_bytes [] n) s s
unfolding read_bytes
Parses-bytes n s h =
    let same : (if ltb 0 n then n else 0) ≡ n = ground arith in rw same (Parses-read_full n s h)
