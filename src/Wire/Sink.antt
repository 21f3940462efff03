-- ===== src/Wire/Sink.antt =====
-- An `io.Writer`: it takes `room` more bytes, and fails on the write that does not fit.
use diablo.Prelude.{
  ℕ, ◌-◌, ◌≤◌, ◌<◌, ◌≡◌, refl, List, [], ◌∷◌, ◌++◌, Bytes, length, length-append, take, leb,
  if◌then◌else◌, arith, inl, inr, Option, none, some, take-append_left, take-append_right, sub_sub,
  le_or_lt, sym,
}
use diablo.Wire.Errors.{Error, write_failed}
use mathlib.Core.List.{append_assoc, append-nil}

pub record Sink : Type 0 where
  pub written : Bytes
  pub room : ℕ

-- A Go function that writes: the error that it returns, `none` for nil, and the stream after it.
abbrev pub Writer : Type 0
Writer = Sink → Option Error × Sink

-- `dest.Write(p)`: a short write fails and keeps the part that went out.
unfoldable pub write : Bytes → Writer
write p s =
    if leb (length p) s.room
    then (none, record { written = s.written ++ p; room = s.room - length p })
    else (some write_failed, record { written = s.written ++ take s.room p; room = 0 })

-- `if err != nil { return err }` between two writes.
unfoldable pub then_write : Option Error × Sink → Writer → Option Error × Sink
then_write (none, s) k = k s
then_write (some e, s) k = (some e, s)

-- One write after the other, up to the first that fails.
unfoldable pub emit : List Bytes → Writer
unfolding then_write
emit [] s = (none, s)
emit (p ∷ ps) s = then_write (write p s) (emit ps)

-- The guards of an `encode`, all in front of its first write.
unfoldable pub guarded : Option Error → List Bytes → Writer
guarded none ps s = emit ps s
guarded (some e) ps s = (some e, s)

abbrev pub frame : List Bytes → Bytes
frame [] = []
frame (p ∷ ps) = p ++ frame ps

pub frame-append : (ps qs : List Bytes) → frame (ps ++ qs) ≡ frame ps ++ frame qs
frame-append [] qs = refl
frame-append (p ∷ ps) qs = rw (frame-append ps qs) (sym (append_assoc p (frame ps) (frame qs)))

-- The stream after all of `p` went out, and after the part of it that there was room for.
abbrev pub sent : Bytes → Sink → Sink
sent p s = record { written = s.written ++ p; room = s.room - length p }

abbrev pub cut : Bytes → Sink → Sink
cut p s = record { written = s.written ++ take s.room p; room = 0 }

pub sent-sent : (p q : Bytes) (s : Sink) → sent q (sent p s) ≡ sent (p ++ q) s
sent-sent p q s = simp (append_assoc, length-append, sub_sub)

pub sent-nil : (s : Sink) → sent [] s ≡ s
sent-nil s = ground (arith, append-nil s.written)

cut-sent : (p q : Bytes) (s : Sink) → length p ≤ s.room → cut q (sent p s) ≡ cut (p ++ q) s
cut-sent p q s h = rw (take-append_right p q s.room h, append_assoc)

write_fits : (p : Bytes) (s : Sink) → length p ≤ s.room → write p s ≡ (none, sent p s)
unfolding write
write_fits p s h = ground arith

write_short : (p : Bytes) (s : Sink) → s.room < length p → write p s ≡ (some write_failed, cut p s)
unfolding write
write_short p s h = ground arith

-- With room for the whole frame every write succeeds, and the frame is what went out.
pub emit-frame :
    (ps : List Bytes) (s : Sink)
    → length (frame ps) ≤ s.room
    → emit ps s ≡ (none, sent (frame ps) s)
unfolding emit then_write
emit-frame [] s h = ground (arith, append-nil s.written)
emit-frame (p ∷ ps) s h =
    let n = length-append p (frame ps) in
    rw (write_fits p s (omega arith), ← sent-sent p (frame ps) s)
      (emit-frame ps (sent p s) (omega arith))

-- Without it the call fails, and what went out is the part of the frame that there was room for.
pub emit-short :
    (ps : List Bytes) (s : Sink)
    → s.room < length (frame ps)
    → emit ps s ≡ (some write_failed, cut (frame ps) s)
unfolding emit then_write
emit-short [] s h = elim h [ ]
emit-short (p ∷ ps) s h = elim (le_or_lt (length p) s.room) [
  | inl fits ↦
      let n = length-append p (frame ps) in
      rw (write_fits p s fits, ← cut-sent p (frame ps) s fits)
        (emit-short ps (sent p s) (omega arith))
  | inr short ↦ rw (write_short p s short, take-append_left p (frame ps) s.room (omega arith))
]
