-- ===== src/Transfer/Complete.antt =====
-- `DataWrite` and `control_write` end when the socket takes bytes.
use yatb.Prelude.{
  ℕ, zero, suc, ◌+◌, ◌-◌, ◌≤◌, true, false, List, [], ◌∷◌, ◌++◌, length, take, drop, ltb, ◌==◌,
  if◌then◌else◌, ◌≡◌, refl, ap, ◌∙◌, inl, inr, Bool-cases, arith, length-take, length-drop, min,
}
use yatb.Text.{Bytes}
use yatb.Transfer.{
  ready, Answer, room, Line, Write, written, data_loop, data_write, Turn, idle, called, block,
  control_loop, control_write,
}

-- Calls that each take at least a byte.
abbrev pub takings : List ℕ → List Answer
takings [] = []
takings (n ∷ ns) = room (suc n) ∷ takings ns

abbrev pub turns : List ℕ → List Turn
turns [] = []
turns (n ∷ ns) = called (room (suc n)) ∷ turns ns

-- The writer returned 1.
abbrev pub Returned1 : {A : Type 0} → Write A → Type 0
Returned1 {A} w = (sent : Bytes) × (rest : List A) × (w ≡ written true sent rest)

module _ (line : Line) (text : Bytes) where
  data_loop-Returned1 :
      (ns : List ℕ) (sent : Bytes) (total count : ℕ)
      → length text ≤ total + length ns
      → Returned1 (data_loop line text total sent count (takings ns))
  unfolding data_loop
  data_loop-Returned1 [] sent total count h = (sent, [], ground arith)
  data_loop-Returned1 (n ∷ ns) sent total count h = elim (Bool-cases (ltb total (length text))) [
    | inl e ↦
        let piece = take (suc n) (drop total text) in
        let l : length piece ≡ min (suc n) (length text - total) =
          length-take (suc n) (drop total text) ∙ ap (min (suc n)) (length-drop total text) in
        let f : (length piece == 0) ≡ false = ground (arith, l) in
        rw (e, data_loop)
          (rw f (
            data_loop-Returned1 ns (sent ++ piece) (total + length piece) count
              (ground (arith, l))))
    | inr e ↦ rw (e, data_loop) (sent, room (suc n) ∷ takings ns, refl)
  ]

  -- `DataWrite` returns 1 after at most as many calls as there are bytes, when every call takes one
  -- byte or more.
  pub data_write-Returned1 :
      (ns : List ℕ) → length text ≤ length ns → Returned1 (data_write line text ready (takings ns))
  unfolding data_write
  data_write-Returned1 ns h = data_loop-Returned1 ns [] 0 0 (omega arith)

  length-block :
      (total : ℕ) → length (block line text total) ≡ min line.buffersize (length text - total)
  unfolding block
  length-block total =
      let left = length text - total in
      let size = if ltb line.buffersize left then line.buffersize else left in
      let d = length-drop total text in ground (arith, length-take size (drop total text), d)

  control_loop-Returned1 :
      (ns : List ℕ) (sent : Bytes) (total count : ℕ)
      → 1 ≤ line.buffersize
      → total ≤ length text
      → length text ≤ total + length ns
      → Returned1 (control_loop line text total sent count (turns ns))
  unfolding control_loop
  control_loop-Returned1 [] sent total count b m h = (sent, [], ground arith)
  control_loop-Returned1 (n ∷ ns) sent total count b m h =
      elim (Bool-cases (ltb total (length text))) [
        | inl e ↦
            let piece = take (suc n) (block line text total) in
            let l : length piece ≡ min (suc n) (min line.buffersize (length text - total)) =
              length-take (suc n) (block line text total) ∙ ap (min (suc n)) (length-block total) in
            rw (e, control_loop)
              (control_loop-Returned1 ns (sent ++ piece) (total + length piece) count b
                (ground (arith, l)) (ground (arith, l)))
        | inr e ↦
            let f : (total == length text) ≡ true = ground arith in
            rw (e, control_loop) (rw f (sent, called (room (suc n)) ∷ turns ns, refl))
      ]

  -- `control_write` returns 1 after at most as many calls as there are bytes, when every call takes
  -- one byte or more and the buffer is not empty.
  pub control_write-Returned1 :
      (ns : List ℕ)
      → 1 ≤ line.buffersize
      → length text ≤ length ns
      → Returned1 (control_write line text (turns ns))
  unfolding control_write
  control_write-Returned1 ns b h = control_loop-Returned1 ns [] 0 0 b (omega arith) (omega arith)

-- Some rounds in which `select` runs into its timeout.
abbrev pub idles : ℕ → List Turn → List Turn
idles zero rs = rs
idles (suc n) rs = idle ∷ idles n rs

control_loop-idle :
    (line : Line) (text sent : Bytes) (total count n : ℕ) (rs : List Turn)
    → ltb total (length text) ≡ true
    → control_loop line text total sent count (idles n rs)
      ≡ control_loop line text total sent count rs
unfolding control_loop
control_loop-idle line text sent total count zero rs e = refl
control_loop-idle line text sent total count (suc n) rs e =
    rw (e, control_loop) (control_loop-idle line text sent total count n rs e)

-- Timeouts never end `control_write`: with something to send, any number of rounds in which `select`
-- times out leaves it where it was.
pub control_write-idle :
    (line : Line) (text : Bytes) (n : ℕ) (rs : List Turn)
    → 1 ≤ length text
    → control_write line text (idles n rs) ≡ control_write line text rs
unfolding control_write
control_write-idle line text n rs h = control_loop-idle line text [] 0 0 n rs (ground arith)
