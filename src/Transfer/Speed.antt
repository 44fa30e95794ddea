-- ===== src/Transfer/Speed.antt =====
-- `SWrite` and `DataWrite`.
use yatb.Prelude.{
  ℕ, ◌+◌, List, [], ◌∷◌, ◌++◌, length, take, drop, ltb, ◌==◌, ◌≡◌, refl, ap, ◌∙◌, inl, inr,
  Bool-cases,
}
use yatb.Text.{Bytes}
use yatb.Transfer.{
  ready, Answer, room, refused, Line, retries, tries_again, data_loop, data_write, speed_loop,
  speed_write,
}

-- Every `select` behind a refusal finds the socket ready.
abbrev pub Ready : List Answer → Type 0
Ready [] = Unit {0}
Ready (room n ∷ rs) = Ready rs
Ready (refused again wait ∷ rs) = (wait ≡ ready) × Ready rs

module _ (line : Line) (text : Bytes) where
  speed_loop-data_loop :
      (rs : List Answer) (sent : Bytes) (total count : ℕ)
      → Ready rs
      → speed_loop line text total sent count rs ≡ data_loop line text total sent count rs
  unfolding speed_loop data_loop
  speed_loop-data_loop [] sent total count h = refl
  speed_loop-data_loop (room n ∷ rs) sent total count h =
      let piece = take n (drop total text) in
      elim (Bool-cases (ltb total (length text))) [
        | inl e ↦ elim (Bool-cases (length piece == 0)) [
          | inl f ↦ rw (e, speed_loop, data_loop) (rw f refl)
          | inr f ↦
              rw (e, speed_loop, data_loop)
                (rw f (speed_loop-data_loop rs (sent ++ piece) (total + length piece) count h))
        ]
        | inr e ↦ rw (e, speed_loop, data_loop) refl
      ]
  speed_loop-data_loop (refused again wait ∷ rs) sent total count (h, hs) =
      let same_test : retries line count again wait ≡ tries_again line count again =
        ap (retries line count again) h ∙ unfold retries tries_again in refl in
      elim (Bool-cases (ltb total (length text))) [
        | inl e ↦ elim (Bool-cases (tries_again line count again)) [
          | inl f ↦
              rw (e, speed_loop, data_loop)
                (rw (same_test, f) (speed_loop-data_loop rs sent total (count + 1) hs))
          | inr f ↦ rw (e, speed_loop, data_loop) (rw (same_test, f) refl)
        ]
        | inr e ↦ rw (e, speed_loop, data_loop) refl
      ]

  -- Where no `select` fails or times out, `SWrite` is `DataWrite`: the same result, the same bytes
  -- sent and the same calls made.
  pub speed_write-data_write :
      (rs : List Answer) → Ready rs → speed_write line text rs ≡ data_write line text ready rs
  unfolding speed_write data_write
  speed_write-data_write rs h = speed_loop-data_loop rs [] 0 0 h
