-- ===== src/Transfer/Sent.antt =====
-- What `DataWrite` and `control_write` have sent when they end.
use yatb.Prelude.{
  ℕ, zero, suc, ◌≤◌, ◌+◌, ◌-◌, true, false, List, [], ◌∷◌, ◌++◌, length, take, drop, ltb, ◌==◌,
  if◌then◌else◌, ◌≡◌, refl, sym, ap, ◌∙◌, inl, inr, Bool-cases, arith, take-append-drop,
  length-append, drop_prefix, append_assoc, append-nil,
}
use yatb.Text.{Bytes}
use yatb.Transfer.{
  Wait, ready, timeout, unset, Answer, room, refused, Line, Write, written, blocked, retries,
  data_loop, data_write, Turn, select_error, idle, called, block, control_loop, control_write,
}

-- What can be said of a writer's end.
abbrev pub InOrder : {A : Type 0} → Bytes → Write A → Type 0
InOrder text (written true sent rest) = sent ≡ text
InOrder text (written false sent rest) = (unsent : Bytes) × (text ≡ sent ++ unsent)
InOrder text (blocked sent) = (unsent : Bytes) × (text ≡ sent ++ unsent)

-- What stands unsent when a part of a text is sent.
drop_sent :
    (text sent unsent : Bytes) (total : ℕ)
    → text ≡ sent ++ unsent
    → total ≡ length sent
    → drop total text ≡ unsent
drop_sent text sent unsent total h k = rw (h, k, drop_prefix) refl

-- Behind a piece of it the rest is unsent.
split_unsent :
    (text sent unsent piece rest : Bytes)
    → text ≡ sent ++ unsent
    → unsent ≡ piece ++ rest
    → text ≡ (sent ++ piece) ++ rest
split_unsent text sent unsent piece rest h k =
    h ∙ ap (λ t. sent ++ t) k ∙ sym (append_assoc sent piece rest)

-- All is sent where nothing is left.
all_sent :
    (text sent unsent : Bytes) (total : ℕ)
    → text ≡ sent ++ unsent
    → total ≡ length sent
    → ltb total (length text) ≡ false
    → sent ≡ text
all_sent text sent [] total h k e = sym (h ∙ append-nil sent)
all_sent text sent (x ∷ unsent) total h k e =
    absurd (grind (arith, ap length h, length-append sent (x ∷ unsent)))

longer :
    (sent piece : Bytes) (total : ℕ)
    → total ≡ length sent
    → total + length piece ≡ length (sent ++ piece)
longer sent piece total k = omega (arith, length-append sent piece)

length-take_le : (n : ℕ) (s : Bytes) → length (take n s) ≤ n
length-take_le zero s = omega arith
length-take_le (suc n) [] = omega arith
length-take_le (suc n) (c ∷ s) = let h = length-take_le n s in omega arith

module _ (line : Line) (text : Bytes) where
  data_loop-InOrder :
      (rs : List Answer) (sent unsent : Bytes) (total count : ℕ)
      → text ≡ sent ++ unsent
      → total ≡ length sent
      → InOrder text (data_loop line text total sent count rs)
  unfolding data_loop
  data_loop-InOrder [] sent unsent total count h k = elim (Bool-cases (ltb total (length text))) [
    | inl e ↦ rw (e, data_loop) (unsent, h)
    | inr e ↦ rw (e, data_loop) (all_sent text sent unsent total h k e)
  ]
  data_loop-InOrder (room n ∷ rs) sent unsent total count h k =
      elim (Bool-cases (ltb total (length text))) [
        | inl e ↦
            let piece = take n (drop total text) in
            elim (Bool-cases (length piece == 0)) [
              | inl f ↦ rw (e, data_loop) (rw f (unsent, h))
              | inr f ↦
                  let k' = drop_sent text sent unsent total h k in
                  let split : unsent ≡ piece ++ drop n unsent =
                    sym (take-append-drop n unsent)
                    ∙ ap (λ t. take n t ++ drop n unsent) (sym k') in
                  rw (e, data_loop)
                    (rw f (
                      data_loop-InOrder rs (sent ++ piece) (drop n unsent) (total + length piece)
                        count (split_unsent text sent unsent piece (drop n unsent) h split)
                        (longer sent piece total k)))
            ]
        | inr e ↦ rw (e, data_loop) (all_sent text sent unsent total h k e)
      ]
  data_loop-InOrder (refused again wait ∷ rs) sent unsent total count h k =
      elim (Bool-cases (ltb total (length text))) [
        | inl e ↦ elim (Bool-cases (retries line count again wait)) [
          | inl f ↦
              rw (e, data_loop) (rw f (data_loop-InOrder rs sent unsent total (count + 1) h k))
          | inr f ↦ rw (e, data_loop) (rw f (unsent, h))
        ]
        | inr e ↦ rw (e, data_loop) (all_sent text sent unsent total h k e)
      ]

  -- However often `DataWrite` is interrupted and retries, what it has sent is the beginning of the
  -- text, with nothing lost, repeated or out of order, and it is the whole text where it returns 1.
  pub data_write-InOrder :
      (wait : Wait) (rs : List Answer) → InOrder text (data_write line text wait rs)
  unfolding data_write
  data_write-InOrder ready rs = data_loop-InOrder rs [] text 0 0 refl refl
  data_write-InOrder timeout rs = (text, refl)
  data_write-InOrder unset rs = (text, refl)

  sent_total :
      (sent : Bytes) (total : ℕ) → total ≡ length sent → sent ≡ text → (total == length text) ≡ true
  sent_total sent total k e = grind (arith, ap length e)

  -- The end of the loop of `control_write`.
  control_end :
      (rs : List Turn) (sent unsent : Bytes) (total : ℕ)
      → text ≡ sent ++ unsent
      → total ≡ length sent
      → ltb total (length text) ≡ false
      → InOrder text (written (total == length text) sent rs)
  control_end rs sent unsent total h k e =
      let s = all_sent text sent unsent total h k e in rw (sent_total sent total k s) s

  -- A block is a piece of what is unsent.
  block_split :
      (n : ℕ) (unsent : Bytes) (total : ℕ)
      → drop total text ≡ unsent
      → (rest : Bytes) × (unsent ≡ take n (block line text total) ++ rest)
  unfolding block
  block_split n unsent total h =
      let left = length text - total in
      let size = if ltb line.buffersize left then line.buffersize else left in
      (
        drop n (take size unsent) ++ drop size unsent,
        sym (take-append-drop size unsent)
            ∙ ap (λ t. t ++ drop size unsent) (sym (take-append-drop n (take size unsent)))
            ∙ append_assoc (take n (take size unsent)) (drop n (take size unsent))
                (drop size unsent)
            ∙ ap (λ t. take n (take size t) ++ (drop n (take size unsent) ++ drop size unsent))
                (sym h),
      )

  length-block : (total : ℕ) → length (block line text total) ≤ line.buffersize
  unfolding block
  length-block total = ground (
    arith,
    length-take_le
        (if ltb line.buffersize (length text - total) then line.buffersize else length text - total)
        (drop total text),
  )

  block_front :
      (unsent : Bytes) (total : ℕ)
      → drop total text ≡ unsent
      → (rest : Bytes) × (unsent ≡ block line text total ++ rest)
  unfolding block
  block_front unsent total h =
      let left = length text - total in
      let size = if ltb line.buffersize left then line.buffersize else left in
      (
        drop size unsent,
        sym (take-append-drop size unsent) ∙ ap (λ t. take size t ++ drop size unsent) (sym h),
      )

  control_loop-InOrder :
      (rs : List Turn) (sent unsent : Bytes) (total count : ℕ)
      → text ≡ sent ++ unsent
      → total ≡ length sent
      → InOrder text (control_loop line text total sent count rs)
  unfolding control_loop
  control_loop-InOrder [] sent unsent total count h k =
      elim (Bool-cases (ltb total (length text))) [
        | inl e ↦ rw (e, control_loop) (unsent, h)
        | inr e ↦ rw (e, control_loop) (control_end [] sent unsent total h k e)
      ]
  control_loop-InOrder (select_error ∷ rs) sent unsent total count h k =
      elim (Bool-cases (ltb total (length text))) [
        | inl e ↦ rw (e, control_loop) (unsent, h)
        | inr e ↦ rw (e, control_loop) (control_end (select_error ∷ rs) sent unsent total h k e)
      ]
  control_loop-InOrder (idle ∷ rs) sent unsent total count h k =
      elim (Bool-cases (ltb total (length text))) [
        | inl e ↦ rw (e, control_loop) (control_loop-InOrder rs sent unsent total count h k)
        | inr e ↦ rw (e, control_loop) (control_end (idle ∷ rs) sent unsent total h k e)
      ]
  control_loop-InOrder (called (room n) ∷ rs) sent unsent total count h k =
      elim (Bool-cases (ltb total (length text))) [
        | inl e ↦
            let piece = take n (block line text total) in
            let split = block_split n unsent total (drop_sent text sent unsent total h k) in
            rw (e, control_loop)
              (control_loop-InOrder rs (sent ++ piece) split.0 (total + length piece) count
                (split_unsent text sent unsent piece split.0 h split.1) (longer sent piece total k))
        | inr e ↦ rw (e, control_loop) (control_end (called (room n) ∷ rs) sent unsent total h k e)
      ]
  control_loop-InOrder (called (refused again wait) ∷ rs) sent unsent total count h k =
      elim (Bool-cases (ltb total (length text))) [
        | inl e ↦ elim (Bool-cases (retries line count again wait)) [
          | inl f ↦
              rw (e, control_loop)
                (rw f (control_loop-InOrder rs sent unsent total (count + 1) h k))
          | inr f ↦ rw (e, control_loop) (rw f (unsent, h))
        ]
        | inr e ↦
            rw (e, control_loop)
              (control_end (called (refused again wait) ∷ rs) sent unsent total h k e)
      ]

  -- However often `control_write` waits, is interrupted and retries, what it has sent is the beginning
  -- of the text, with nothing lost, repeated or out of order, and it is the whole text where it
  -- returns 1. Behind any part of the text the block that it offers next is at most a buffer, and it
  -- is the beginning of what is left.
  pub control_write-InOrder :
      (rs : List Turn) (sent unsent : Bytes)
      → text ≡ sent ++ unsent
      → InOrder text (control_write line text rs)
        × (length (block line text (length sent)) ≤ line.buffersize)
        × ((rest : Bytes) × (unsent ≡ block line text (length sent) ++ rest))
  unfolding control_write block
  control_write-InOrder rs sent unsent h = (
    control_loop-InOrder rs [] text 0 0 refl refl,
    length-block (length sent),
    block_front unsent (length sent) (drop_sent text sent unsent (length sent) h refl),
  )
