-- ===== src/Transfer/Pieces.antt =====
-- src/tools.cc: `DataRead`, and src/datathread.cc: `SRead`, which read one piece of a data connection
-- into a buffer.
use yatb.Prelude.{
  ℕ, ◌+◌, ◌-◌, Bool, true, false, ◌||◌, List, [], ◌∷◌, ◌++◌, Option, none, some, length, take, drop,
  ltb, ◌==◌, if◌then◌else◌,
}
use yatb.Text.{Bytes, is_empty}
use yatb.Transfer.{Line, Wait, reached, retries, tries_again}

-- What a call of `recv` or `SSL_read` does: it takes from the bytes that have arrived as many as
-- there is room for (none where the connection is closed), or it returns a negative number: whether
-- `SSL_get_error` then asks to wait, and what the `select` for that reports.
pub data Piece : Type 0 where
  bytes : Bytes → Piece
  refused : Bool → Wait → Piece

-- How a reader ends: with its result, `nrbytes` if it was set, what it put into the buffer and the
-- pieces that are left; or it still waits.
pub data Taken (A : Type 0) : Type 0 where
  taken : Bool → Option ℕ → Bytes → List A → Taken A
  awaits : Taken A

-- What one call leaves of a piece.
unfoldable pub leave : ℕ → Bytes → List Piece → List Piece
leave size arrived rs = if is_empty (drop size arrived) then rs else bytes (drop size arrived) ∷ rs

-- One piece that is not a refusal.
unfoldable pub take_piece : ℕ → Bytes → List Piece → Taken Piece
unfolding leave
take_piece size arrived rs =
    let piece = take size arrived in
    if length piece == 0
    then taken false (some 0) [] (leave size arrived rs)
    else taken true (some (length piece)) piece (leave size arrived rs)

-- The loop of `SRead`. Where a retry is refused `nrbytes` is not set.
unfoldable pub speed_read_loop : Line → ℕ → List Piece → Taken Piece
unfolding take_piece reached
speed_read_loop line count [] = awaits
speed_read_loop line count (bytes arrived ∷ rs) = take_piece line.buffersize arrived rs
speed_read_loop line count (refused again wait ∷ rs) = elim (tries_again line count again) [
  | true ↦ speed_read_loop line (count + 1) rs
  | false ↦ taken false (if reached count line.retry_count || line.ssl then none else some 0) [] rs
]

unfoldable pub speed_read : Line → List Piece → Taken Piece
unfolding speed_read_loop
speed_read line rs = speed_read_loop line 0 rs

-- The loop of `DataRead` with no `ssl_ascii_cache`.
unfoldable pub data_read_loop : Line → ℕ → List Piece → Taken Piece
unfolding take_piece reached
data_read_loop line count [] = awaits
data_read_loop line count (bytes arrived ∷ rs) = take_piece line.buffersize arrived rs
data_read_loop line count (refused again wait ∷ rs) = elim (retries line count again wait) [
  | true ↦ data_read_loop line (count + 1) rs
  | false ↦ taken false (if reached count line.retry_count || line.ssl then none else some 0) [] rs
]

-- One round of the loop for `ssl_ascii_cache`: its `select` finds the socket not ready, or the call
-- is made.
pub data Round : Type 0 where
  not_ready : Round
  called : Piece → Round

-- Behind that loop.
unfoldable pub cached_end : ℕ → Bytes → List Round → Taken Round
cached_end n got rest =
    if ltb 0 n then taken true (some n) got rest else taken false (some 0) [] rest

-- The loop of `DataRead` for `ssl_ascii_cache`, on a plain connection: it fills the buffer with what
-- is there. A piece that is not used up has filled the buffer.
unfoldable pub cached_loop : ℕ → ℕ → Bytes → List Round → Taken Round
unfolding cached_end
cached_loop buffersize n got [] = if ltb n buffersize then awaits else cached_end n got []
cached_loop buffersize n got (not_ready ∷ rs) = cached_end n got (not_ready ∷ rs)
cached_loop buffersize n got (called (refused again wait) ∷ rs) =
    if ltb n buffersize
    then cached_end n got rs
    else cached_end n got (called (refused again wait) ∷ rs)
cached_loop buffersize n got (called (bytes arrived) ∷ rs) =
    let piece = take (buffersize - n) arrived in
    let more = cached_loop buffersize (n + length piece) (got ++ piece) rs in
    elim (ltb n buffersize) [
      | false ↦ cached_end n got (called (bytes arrived) ∷ rs)
      | true ↦ elim (is_empty (drop (buffersize - n) arrived)) [
        | true ↦ if length piece == 0 then cached_end n got rs else more
        | false ↦
            cached_end (n + length piece) (got ++ piece)
              (called (bytes (drop (buffersize - n) arrived)) ∷ rs)
      ]
    ]

-- `DataRead` in its two modes.
unfoldable pub data_read : Line → List Piece → Taken Piece
unfolding data_read_loop
data_read line rs = data_read_loop line 0 rs

unfoldable pub data_read_cached : Line → List Round → Taken Round
unfolding cached_loop
data_read_cached line rs = cached_loop line.buffersize 0 [] rs
