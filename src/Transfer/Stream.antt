-- ===== src/Transfer/Stream.antt =====
-- What `DataRead` and `SRead` take from a data connection.
use yatb.Prelude.{
  ℕ, ◌+◌, ◌-◌, ◌≤◌, true, false, List, [], ◌∷◌, ◌++◌, some, length, take, drop, ltb, ◌==◌,
  if◌then◌else◌, ◌≡◌, refl, sym, ap, ◌∙◌, inl, inr, Bool-cases, arith, append_assoc, append-nil,
  take-append-drop, length-append, length-take,
}
use yatb.Text.{Bytes, is_empty}
use yatb.Transfer.{Line, retries, tries_again}
use yatb.Transfer.Pieces.{
  Piece, bytes, refused, Taken, taken, awaits, leave, take_piece, speed_read_loop, speed_read,
  data_read_loop, data_read, Round, not_ready, called, cached_end, cached_loop, data_read_cached,
}

-- The bytes of some pieces.
abbrev pub stream : List Piece → Bytes
stream [] = []
stream (bytes arrived ∷ rs) = arrived ++ stream rs
stream (refused again wait ∷ rs) = stream rs

abbrev pub round_stream : List Round → Bytes
round_stream [] = []
round_stream (not_ready ∷ rs) = round_stream rs
round_stream (called (bytes arrived) ∷ rs) = arrived ++ round_stream rs
round_stream (called (refused again wait) ∷ rs) = round_stream rs

-- The reader took the first bytes of the text and left the others: at least one and at most a buffer
-- where it returns 1, none where it returns 0.
abbrev pub Takes : {A : Type 0} → (List A → Bytes) → ℕ → Bytes → Taken A → Type 0
Takes text_of size text awaits = Unit
Takes text_of size text (taken true nrbytes got rest) =
    (text ≡ got ++ text_of rest)
    × (nrbytes ≡ some (length got))
    × (1 ≤ length got)
    × (length got ≤ size)
Takes text_of size text (taken false nrbytes got rest) = (got ≡ []) × (text ≡ text_of rest)

stream-leave :
    (size : ℕ) (arrived : Bytes) (rs : List Piece)
    → stream (leave size arrived rs) ≡ drop size arrived ++ stream rs
unfolding leave
stream-leave size arrived rs = go (drop size arrived)
  where
    go : (rest : Bytes) → stream (if is_empty rest then rs else bytes rest ∷ rs) ≡ rest ++ stream rs
    go [] = refl
    go (c ∷ rest) = refl

empty : (t : Bytes) → (length t == 0) ≡ true → t ≡ []
empty [] h = refl
empty (c ∷ t) h = absurd (ground arith)

is_empty-nil : (t : Bytes) → is_empty t ≡ true → t ≡ []
is_empty-nil [] h = refl
is_empty-nil (c ∷ t) h = cc

-- A piece is cut from the bytes that arrive.
split_piece :
    (size : ℕ) (got arrived rest : Bytes)
    → got ++ (arrived ++ rest) ≡ (got ++ take size arrived) ++ (drop size arrived ++ rest)
split_piece size got arrived rest =
    ap (λ t. got ++ (t ++ rest)) (sym (take-append-drop size arrived))
    ∙ ap (λ t. got ++ t) (append_assoc (take size arrived) (drop size arrived) rest)
    ∙ sym (append_assoc got (take size arrived) (drop size arrived ++ rest))

take_piece-Takes :
    (size : ℕ) (arrived : Bytes) (rs : List Piece)
    → Takes stream size (arrived ++ stream rs) (take_piece size arrived rs)
unfolding take_piece
take_piece-Takes size arrived rs =
    let piece = take size arrived in
    let split : arrived ++ stream rs ≡ piece ++ stream (leave size arrived rs) =
      ap (λ t. t ++ stream rs) (sym (take-append-drop size arrived))
      ∙ append_assoc piece (drop size arrived) (stream rs)
      ∙ ap (λ t. piece ++ t) (sym (stream-leave size arrived rs)) in
    let l = length-take size arrived in
    elim (Bool-cases (length piece == 0)) [
      | inl e ↦
          rw (e, take_piece)
            (refl, split ∙ ap (λ t. t ++ stream (leave size arrived rs)) (empty piece e))
      | inr e ↦ rw (e, take_piece) (split, refl, ground arith, ground (arith, l))
    ]

module _ (line : Line) where
  speed_read_loop-Takes :
      (rs : List Piece) (count : ℕ)
      → Takes stream line.buffersize (stream rs) (speed_read_loop line count rs)
  unfolding speed_read_loop
  speed_read_loop-Takes [] count = tt
  speed_read_loop-Takes (bytes arrived ∷ rs) count = take_piece-Takes line.buffersize arrived rs
  speed_read_loop-Takes (refused again wait ∷ rs) count =
      elim (Bool-cases (tries_again line count again)) [
        | inl e ↦ rw (e, speed_read_loop) (speed_read_loop-Takes rs (count + 1))
        | inr e ↦ rw (e, speed_read_loop) (refl, refl)
      ]

  data_read_loop-Takes :
      (rs : List Piece) (count : ℕ)
      → Takes stream line.buffersize (stream rs) (data_read_loop line count rs)
  unfolding data_read_loop
  data_read_loop-Takes [] count = tt
  data_read_loop-Takes (bytes arrived ∷ rs) count = take_piece-Takes line.buffersize arrived rs
  data_read_loop-Takes (refused again wait ∷ rs) count =
      elim (Bool-cases (retries line count again wait)) [
        | inl e ↦ rw (e, data_read_loop) (data_read_loop-Takes rs (count + 1))
        | inr e ↦ rw (e, data_read_loop) (refl, refl)
      ]

-- The end of the loop for `ssl_ascii_cache`.
cached_end-Takes :
    (size n : ℕ) (got text : Bytes) (rest : List Round)
    → n ≡ length got
    → n ≤ size
    → text ≡ got ++ round_stream rest
    → Takes round_stream size text (cached_end n got rest)
unfolding cached_end
cached_end-Takes size n [] text rest h k m =
    let e : ltb 0 n ≡ false = ground arith in rw (e, cached_end) (refl, m)
cached_end-Takes size n (c ∷ got) text rest h k m =
    let e : ltb 0 n ≡ true = ground arith in
    rw (e, cached_end) (m, ap some h, omega arith, omega arith)

cached_loop-Takes :
    (size : ℕ) (rs : List Round) (n : ℕ) (got text : Bytes)
    → n ≡ length got
    → n ≤ size
    → text ≡ got ++ round_stream rs
    → Takes round_stream size text (cached_loop size n got rs)
unfolding cached_loop
cached_loop-Takes size [] n got text h k m = elim (Bool-cases (ltb n size)) [
  | inl e ↦ rw (e, cached_loop) tt
  | inr e ↦ rw (e, cached_loop) (cached_end-Takes size n got text [] h k m)
]
cached_loop-Takes size (not_ready ∷ rs) n got text h k m =
    cached_end-Takes size n got text (not_ready ∷ rs) h k m
cached_loop-Takes size (called (refused again wait) ∷ rs) n got text h k m =
    elim (Bool-cases (ltb n size)) [
      | inl e ↦ rw (e, cached_loop) (cached_end-Takes size n got text rs h k m)
      | inr e ↦
          rw (e, cached_loop)
            (cached_end-Takes size n got text (called (refused again wait) ∷ rs) h k m)
    ]
cached_loop-Takes size (called (bytes arrived) ∷ rs) n got text h k m =
    let piece = take (size - n) arrived in
    let left = drop (size - n) arrived in
    let split : text ≡ (got ++ piece) ++ (left ++ round_stream rs) =
      m ∙ split_piece (size - n) got arrived (round_stream rs) in
    let longer : n + length piece ≡ length (got ++ piece) =
      omega (arith, length-append got piece) in
    let bound : n + length piece ≤ size = omega (arith, length-take (size - n) arrived) in
    elim (Bool-cases (ltb n size)) [
      | inl e ↦ elim (Bool-cases (is_empty left)) [
        | inl f ↦
            let split' : text ≡ (got ++ piece) ++ round_stream rs =
              split ∙ ap (λ t. (got ++ piece) ++ (t ++ round_stream rs)) (is_empty-nil left f) in
            elim (Bool-cases (length piece == 0)) [
              | inl g ↦
                  let whole : text ≡ got ++ round_stream rs =
                    split'
                    ∙ ap (λ t. (got ++ t) ++ round_stream rs) (empty piece g)
                    ∙ ap (λ t. t ++ round_stream rs) (append-nil got) in
                  rw (e, cached_loop) (rw f (rw g (cached_end-Takes size n got text rs h k whole)))
              | inr g ↦
                  rw (e, cached_loop)
                    (rw f (
                      rw g (
                        cached_loop-Takes size rs (n + length piece) (got ++ piece) text longer
                          bound split')))
            ]
        | inr f ↦
            rw (e, cached_loop)
              (rw f (
                cached_end-Takes size (n + length piece) (got ++ piece) text
                  (called (bytes left) ∷ rs) longer bound split))
      ]
      | inr e ↦
          rw (e, cached_loop) (cached_end-Takes size n got text (called (bytes arrived) ∷ rs) h k m)
    ]

-- `DataRead` and `SRead` pass on the bytes that arrive, in order and with none lost: where they
-- return 1 the buffer holds the next bytes, at least one and at most `config.buffersize`, and
-- `nrbytes` is their number; where they return 0 nothing is taken from the connection.
pub data_read-speed_read-Takes :
    (line : Line) (rs : List Piece)
    → Takes stream line.buffersize (stream rs) (data_read line rs)
      × Takes stream line.buffersize (stream rs) (speed_read line rs)
unfolding data_read speed_read
data_read-speed_read-Takes line rs =
    (data_read_loop-Takes line rs 0, speed_read_loop-Takes line rs 0)

-- `DataRead` with `ssl_ascii_cache`, which fills the buffer from several pieces, passes on the
-- bytes that arrive, in order and with none lost: where it returns 1 the buffer holds the next
-- bytes, at least one and at most `config.buffersize`, and `nrbytes` is their number; where it
-- returns 0 nothing is taken from the connection.
pub data_read_cached-Takes :
    (line : Line) (rs : List Round)
    → Takes round_stream line.buffersize (round_stream rs) (data_read_cached line rs)
unfolding data_read_cached
data_read_cached-Takes line rs =
    cached_loop-Takes line.buffersize rs 0 [] (round_stream rs) refl (omega arith) refl
