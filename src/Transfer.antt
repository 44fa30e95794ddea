-- ===== src/Transfer.antt =====
-- src/tools.cc: `control_write` and `DataWrite`, and src/datathread.cc: `SWrite`, which send a text in pieces, and `control_read`,
-- which reads a reply in pieces. What the sockets answer is given as the list of the answers.
pub mod Sent
pub mod Complete
pub mod Speed
pub mod Pieces
pub mod Stream
pub mod Received
use yatb.Prelude.{
  ℕ, ◌+◌, ◌-◌, Bool, true, false, not, ◌&&◌, List, [], ◌∷◌, ◌++◌, Option, none, some, length, take,
  drop, ltb, ◌==◌, if◌then◌else◌, ℤ, pos, negsuc,
}
use yatb.Strings.{last, correct_reply}
use yatb.Text.{Bytes, c_str}

-- What the `select` behind an error reports: the socket is ready, a timeout or an error, or a
-- socket that is not in the set.
pub data Wait : Type 0 where
  ready : Wait
  timeout : Wait
  unset : Wait

-- What a call of `send` or `SSL_write` does. `room n` takes as many of the offered bytes as there is
-- room for, at most n, and returns their number; `refused` returns a negative number: whether
-- `SSL_get_error` then asks to wait, and what the `select` for that reports.
pub data Answer : Type 0 where
  room : ℕ → Answer
  refused : Bool → Wait → Answer

-- The configuration and the connection: `config.buffersize`, `config.retry_count`, and whether there
-- is an `SSL`.
pub record Line : Type 0 where
  pub buffersize : ℕ
  pub retry_count : ℤ
  pub ssl : Bool

-- How a writer ends: with its result, what it sent and the answers that are left; or it still waits
-- when the answers are used up, having sent a part.
pub data Write (A : Type 0) : Type 0 where
  written : Bool → Bytes → List A → Write A
  blocked : Bytes → Write A

-- `count == config.retry_count`.
unfoldable pub reached : ℕ → ℤ → Bool
reached count (pos n) = count == n
reached count (negsuc n) = false

-- What is done about a refusal: is the call tried again?
unfoldable pub retries : Line → ℕ → Bool → Wait → Bool
unfolding reached
retries line count again ready = not (reached count line.retry_count) && (line.ssl && again)
retries line count again timeout = false
retries line count again unset = false

-- Is a refusal in `SWrite` followed by another try? There is no `select` to wait for.
unfoldable pub tries_again : Line → ℕ → Bool → Bool
unfolding reached
tries_again line count again = not (reached count line.retry_count) && (line.ssl && again)

-- `CDataThread::SWrite`; of a refusal the part about `select` is not read.
module _ (line : Line) (data' : Bytes) where
  unfoldable pub speed_loop : ℕ → Bytes → ℕ → List Answer → Write Answer
  speed_loop total sent count [] =
      if ltb total (length data') then blocked sent else written true sent []
  speed_loop total sent count (room n ∷ rs) = elim (ltb total (length data')) [
    | false ↦ written true sent (room n ∷ rs)
    | true ↦
        let piece = take n (drop total data') in
        elim (length piece == 0) [
          | true ↦ written false sent rs
          | false ↦ speed_loop (total + length piece) (sent ++ piece) count rs
        ]
  ]
  speed_loop total sent count (refused again wait ∷ rs) = elim (ltb total (length data')) [
    | false ↦ written true sent (refused again wait ∷ rs)
    | true ↦ elim (tries_again line count again) [
      | true ↦ speed_loop total sent (count + 1) rs
      | false ↦ written false sent rs
    ]
  ]

  unfoldable pub speed_write : List Answer → Write Answer
  unfolding speed_loop
  speed_write rs = speed_loop 0 [] 0 rs

-- One round of `control_write`: its `select` fails, or reports no socket so that nothing is sent, or
-- the call is made.
pub data Turn : Type 0 where
  select_error : Turn
  idle : Turn
  called : Answer → Turn

-- The block that is offered next: what is left, at most a buffer.
unfoldable pub block : Line → Bytes → ℕ → Bytes
block line text total =
    let bytesleft = length text - total in
    take (if ltb line.buffersize bytesleft then line.buffersize else bytesleft) (drop total text)

module _ (line : Line) (data' : Bytes) where
  -- The loop of `DataWrite`.
  unfoldable pub data_loop : ℕ → Bytes → ℕ → List Answer → Write Answer
  data_loop total sent count [] =
      if ltb total (length data') then blocked sent else written true sent []
  data_loop total sent count (room n ∷ rs) = elim (ltb total (length data')) [
    | false ↦ written true sent (room n ∷ rs)
    | true ↦
        let piece = take n (drop total data') in
        elim (length piece == 0) [
          | true ↦ written false sent rs
          | false ↦ data_loop (total + length piece) (sent ++ piece) count rs
        ]
  ]
  data_loop total sent count (refused again wait ∷ rs) = elim (ltb total (length data')) [
    | false ↦ written true sent (refused again wait ∷ rs)
    | true ↦ elim (retries line count again wait) [
      | true ↦ data_loop total sent (count + 1) rs
      | false ↦ written false sent rs
    ]
  ]

  -- `DataWrite`, whose first `select` reports `wait`.
  unfoldable pub data_write : Wait → List Answer → Write Answer
  unfolding data_loop
  data_write ready rs = data_loop 0 [] 0 rs
  data_write timeout rs = written false [] rs
  data_write unset rs = written false [] rs

-- The loop of `control_write`. `bytesleft` is the length less `total`.
module _ (line : Line) (s : Bytes) where
  unfoldable pub control_loop : ℕ → Bytes → ℕ → List Turn → Write Turn
  unfolding block
  control_loop total sent count [] =
      if ltb total (length s) then blocked sent else written (total == length s) sent []
  control_loop total sent count (select_error ∷ rs) = elim (ltb total (length s)) [
    | false ↦ written (total == length s) sent (select_error ∷ rs)
    | true ↦ written false sent rs
  ]
  control_loop total sent count (idle ∷ rs) = elim (ltb total (length s)) [
    | false ↦ written (total == length s) sent (idle ∷ rs)
    | true ↦ control_loop total sent count rs
  ]
  control_loop total sent count (called (room n) ∷ rs) = elim (ltb total (length s)) [
    | false ↦ written (total == length s) sent (called (room n) ∷ rs)
    | true ↦
        let piece = take n (block line s total) in
        control_loop (total + length piece) (sent ++ piece) count rs
  ]
  control_loop total sent count (called (refused again wait) ∷ rs) = elim (ltb total (length s)) [
    | false ↦ written (total == length s) sent (called (refused again wait) ∷ rs)
    | true ↦ elim (retries line count again wait) [
      | true ↦ control_loop total sent (count + 1) rs
      | false ↦ written false sent rs
    ]
  ]

  unfoldable pub control_write : List Turn → Write Turn
  unfolding control_loop
  control_write rs = control_loop 0 [] 0 rs

-- One round of `control_read`: its `select` fails or reports no socket, or `recv` or `SSL_read`
-- returns bytes, 0, or a negative number; then `SSL_get_error` may ask to wait.
pub data Arrival : Type 0 where
  select_failed : Arrival
  silent : Arrival
  arrived : Bytes → Arrival
  closed : Arrival
  failed : Bool → Arrival

-- How `control_read` ends: undefined behaviour, the result with `str` (which only the result 1
-- sets), or still waiting for more than the arrivals give.
pub data Read : Type 0 where
  undefined : Read
  returned : ℕ → Option Bytes → List Arrival → Read
  reading : Bytes → Read

-- The loop of `control_read`. `tmp += tmpstr` takes the bytes up to the first NUL, and `count` is
-- never raised.
unfoldable pub read_loop : Line → Bytes → List Arrival → Read
unfolding reached
read_loop line tmp [] = reading tmp
read_loop line tmp (select_failed ∷ rs) = returned 1 (some tmp) rs
read_loop line tmp (silent ∷ rs) = returned 0 none rs
read_loop line tmp (closed ∷ rs) = returned 0 none rs
read_loop line tmp (failed again ∷ rs) =
    if line.ssl && (not (reached 0 line.retry_count) && again)
    then returned 2 none rs
    else returned 0 none rs
read_loop line tmp (arrived bytes ∷ rs) =
    let tmp' = tmp ++ c_str bytes in
    let more = read_loop line tmp' rs in
    if ltb (length bytes) line.buffersize
    then (elim (last tmp') [
      | none ↦ undefined
      | some c ↦ if c == b'\n' then returned 1 (some (correct_reply tmp')) rs else more
    ])
    else more

unfoldable pub control_read : Line → List Arrival → Read
unfolding read_loop
control_read line rs = read_loop line [] rs
