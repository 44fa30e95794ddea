-- ===== src/Transfer/Received.antt =====
-- What `control_read` returns.
use yatb.Prelude.{
  ℕ, zero, suc, ◌-◌, ◌≤◌, ◌<◌, true, false, not, ◌&&◌, List, [], ◌∷◌, ◌++◌, none, some, length, ltb,
  map, ◌==◌, ◌≡◌, ◌≢◌, refl, sym, ap, ◌∙◌, ◌⊎◌, inl, inr, Bool-cases, Option-cases, arith,
}
use yatb.Strings.{last, correct_reply}
use yatb.Text.{Bytes, c_str, at}
use yatb.Transfer.{
  Line, Arrival, select_failed, silent, arrived, closed, failed, Read, undefined, returned, reading,
  reached, read_loop, control_read,
}

-- The text that some pieces make behind another: of each, the bytes before its first NUL.
abbrev pub received : Bytes → List Bytes → Bytes
received tmp [] = tmp
received tmp (t ∷ ts) = received (tmp ++ c_str t) ts

-- What `control_read` read when it returns 1.
abbrev pub IsReceived : Bytes → List Arrival → Read → Type 0
IsReceived tmp rs (returned (suc zero) (some str) rest) =
    (used : List Bytes) × (((rs ≡ map arrived used ++ rest)
        × (str ≡ correct_reply (received tmp used)))
      ⊎ ((rs ≡ map arrived used ++ select_failed ∷ rest) × (str ≡ received tmp used)))
IsReceived tmp rs (returned (suc zero) none rest) = ⊥
IsReceived tmp rs (returned zero str rest) = str ≡ none
IsReceived tmp rs (returned (suc (suc n)) str rest) = (str ≡ none) × (n ≡ 0)
IsReceived tmp rs (reading t) =
    (used : List Bytes) × (rs ≡ map arrived used) × (t ≡ received tmp used)
IsReceived tmp rs undefined =
    (used : List Bytes) × (rest : List Arrival) × (rs ≡ map arrived used ++ rest)
    × (used ≢ [])
    × (received tmp used ≡ [])

cons_not_nil : (t : Bytes) (ts : List Bytes) → (t ∷ ts) ≢ []
cons_not_nil t ts e = cc

some_not_none : (d : ℕ) → some d ≡ none → ⊥
some_not_none d e = cc

at_end : (s : Bytes) (c : ℕ) → (d : ℕ) × (at (c ∷ s) (length s) ≡ some d)
unfolding at
at_end [] c = (c, refl)
at_end (b ∷ s) c = at_end s b

-- A text without a last byte is empty.
last-none : (s : Bytes) → last s ≡ none → s ≡ []
unfolding last at
last-none [] e = refl
last-none (c ∷ s) e =
    let (d, f) = at_end s c in
    let l : length (c ∷ s) - 1 ≡ length s = omega arith in
    absurd (some_not_none d (sym f ∙ ap (λ i. at (c ∷ s) i) (sym l) ∙ e))

IsReceived-next :
    (tmp bytes : Bytes) (rs : List Arrival) (r : Read)
    → IsReceived (tmp ++ c_str bytes) rs r
    → IsReceived tmp (arrived bytes ∷ rs) r
IsReceived-next tmp bytes rs (returned (suc zero) (some str) rest) (used, inl (h, k)) =
    (bytes ∷ used, inl (ap (λ t. arrived bytes ∷ t) h, k))
IsReceived-next tmp bytes rs (returned (suc zero) (some str) rest) (used, inr (h, k)) =
    (bytes ∷ used, inr (ap (λ t. arrived bytes ∷ t) h, k))
IsReceived-next tmp bytes rs (returned (suc zero) none rest) h = h
IsReceived-next tmp bytes rs (returned zero str rest) h = h
IsReceived-next tmp bytes rs (returned (suc (suc n)) str rest) h = h
IsReceived-next tmp bytes rs (reading t) (used, h, k) =
    (bytes ∷ used, ap (λ t. arrived bytes ∷ t) h, k)
IsReceived-next tmp bytes rs undefined (used, rest, h, n, k) =
    (bytes ∷ used, rest, ap (λ t. arrived bytes ∷ t) h, cons_not_nil bytes used, k)

module _ (line : Line) where
  read_loop-IsReceived :
      (rs : List Arrival) (tmp : Bytes) → IsReceived tmp rs (read_loop line tmp rs)
  unfolding read_loop
  read_loop-IsReceived [] tmp = ([], refl, refl)
  read_loop-IsReceived (select_failed ∷ rs) tmp = ([], inr (refl, refl))
  read_loop-IsReceived (silent ∷ rs) tmp = refl
  read_loop-IsReceived (closed ∷ rs) tmp = refl
  read_loop-IsReceived (failed again ∷ rs) tmp =
      elim (Bool-cases (line.ssl && (not (reached 0 line.retry_count) && again))) [
        | inl e ↦ rw (e, read_loop) (refl, refl)
        | inr e ↦ rw (e, read_loop) refl
      ]
  read_loop-IsReceived (arrived bytes ∷ rs) tmp =
      let tmp' = tmp ++ c_str bytes in
      let more =
        IsReceived-next tmp bytes rs (read_loop line tmp' rs) (read_loop-IsReceived rs tmp') in
      elim (Bool-cases (ltb (length bytes) line.buffersize)) [
        | inl e ↦ elim (Option-cases (last tmp')) [
          | inl f ↦
              rw (e, read_loop)
                (rw f (bytes ∷ [], rs, refl, cons_not_nil bytes [], last-none tmp' f))
          | inr (c, f) ↦ elim (Bool-cases (c == b'\n')) [
            | inl g ↦ rw (e, read_loop) (rw f (rw g (bytes ∷ [], inl (refl, refl))))
            | inr g ↦ rw (e, read_loop) (rw f (rw g more))
          ]
        ]
        | inr e ↦ rw (e, read_loop) more
      ]

  -- When `control_read` returns 1, the text is that of the pieces it read, whole and in order, each
  -- up to its first NUL, with its line ends corrected; after an error of `select` it is that text as
  -- it stands. Otherwise it returns 0 or 2 and no text, or still waits with what it read; or its
  -- behaviour is undefined, and then something was read and the text of it is empty: each of the pieces
  -- begins with a NUL.
  pub control_read-IsReceived : (rs : List Arrival) → IsReceived [] rs (control_read line rs)
  unfolding control_read
  control_read-IsReceived rs = read_loop-IsReceived rs []

  -- Pieces that do not end the reading: a full buffer, or no line feed at the end so far.
  abbrev pub Unfinished : Bytes → List Bytes → Type 0
  Unfinished tmp [] = Unit
  Unfinished tmp (t ∷ ts) =
      ((line.buffersize ≤ length t) ⊎ ((c : ℕ) × (last (tmp ++ c_str t) ≡ some c) × (c ≢ b'\n')))
      × Unfinished (tmp ++ c_str t) ts

  read_loop-Unfinished :
      (ts : List Bytes) (rs : List Arrival) (tmp : Bytes)
      → Unfinished tmp ts
      → read_loop line tmp (map arrived ts ++ rs) ≡ read_loop line (received tmp ts) rs
  unfolding read_loop
  read_loop-Unfinished [] rs tmp h = refl
  read_loop-Unfinished (t ∷ ts) rs tmp (inl h, hs) =
      let e : ltb (length t) line.buffersize ≡ false = ground arith in
      rw (e, read_loop) (read_loop-Unfinished ts rs (tmp ++ c_str t) hs)
  read_loop-Unfinished (t ∷ ts) rs tmp (inr (c, h, k), hs) =
      let next = read_loop-Unfinished ts rs (tmp ++ c_str t) hs in
      let g : (c == b'\n') ≡ false = ground arith in
      elim (Bool-cases (ltb (length t) line.buffersize)) [
        | inl e ↦ rw (e, read_loop) (rw h (rw g next))
        | inr e ↦ rw (e, read_loop) next
      ]

  -- Pieces that do not end the reading (a full buffer, or no line feed at the end of the text so
  -- far), and then one that does not fill the buffer and behind which the text ends with a line
  -- feed: `control_read` returns 1 and the text read so far with its line ends corrected, and
  -- reads no more.
  pub control_read_complete :
      (ts : List Bytes) (t : Bytes) (rest : List Arrival)
      → Unfinished [] ts
      → length t < line.buffersize
      → last (received [] ts ++ c_str t) ≡ some b'\n'
      → control_read line (map arrived ts ++ arrived t ∷ rest)
        ≡ returned 1 (some (correct_reply (received [] ts ++ c_str t))) rest
  unfolding control_read
  control_read_complete ts t rest h k l = read_loop-Unfinished ts (arrived t ∷ rest) [] h ∙ end
    where
      end :
          read_loop line (received [] ts) (arrived t ∷ rest)
          ≡ returned 1 (some (correct_reply (received [] ts ++ c_str t))) rest
      end =
          let e : ltb (length t) line.buffersize ≡ true = ground (arith, k) in
          unfold read_loop in rw (e, read_loop) (rw l refl)
