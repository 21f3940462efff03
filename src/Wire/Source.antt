-- ===== src/Wire/Source.antt =====
-- An `io.Reader` that holds the bytes of a stream and then ends.
use diablo.Prelude.{ℕ, [], ◌∷◌, Bytes, length, take, drop, leb, ◌==◌, if◌then◌else◌}
use diablo.Wire.Errors.{Error, Result, ok, err, eof, unexpected_eof, and_then}

-- A Go function that reads: its value with the rest of the stream, or its error.
abbrev pub Parser {ℓ} : Type ℓ → Type ℓ
Parser A = Bytes → Result (A × Bytes)

module _ {ℓ} {A : Type ℓ} where
  unfoldable pub pure : A → Parser A
  pure a src = ok (a, src)

  unfoldable pub fail : Error → Parser A
  fail e src = err e

  -- A step that reads nothing and may fail.
  unfoldable pub lift : Result A → Parser A
  lift r src = and_then r (λ a. ok (a, src))

module _ {ℓ κ} {A : Type ℓ} {B : Type κ} where
  infixl 10 ◌>>=◌
  -- `if err != nil { return nil, err }` behind a read.
  unfoldable pub ◌>>=◌ : Parser A → (A → Parser B) → Parser B
  unfolding pure fail
  ◌>>=◌ p f src = and_then (p src) (λ r. f r.0 r.1)

-- `io.ReadFull(src, buf[:n])`
unfoldable pub read_full : ℕ → Parser Bytes
read_full n src =
    if leb n (length src)
    then ok (take n src, drop n src)
    else if length src == 0
    then err eof
    else err unexpected_eof

-- `buf[0]`
abbrev pub first : Bytes → ℕ
first [] = 0
first (b ∷ bs) = b

-- `io.ReadFull(src, buf[:1])`, then `int(buf[0])`
unfoldable pub read_byte : Parser ℕ
unfolding read_full
read_byte = do buf ← read_full 1; pure (first buf)

-- A length byte and that many bytes.
unfoldable pub read_short_string : Parser Bytes
unfolding read_byte
read_short_string = do n ← read_byte; read_full n
