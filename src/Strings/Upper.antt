-- ===== src/Strings/Upper.antt =====
-- `upper`: the whole text in upper case.
use yatb.Prelude.{ℕ, [], ◌∷◌, length, take_all, length-map, map, ◌≡◌, refl, arith, ◌∙◌, ap, sym}
use yatb.Text.{Bytes, toupper}
use yatb.Strings.{upper}

-- With the length 0 every byte is kept.
pub upper_whole : (s : Bytes) → upper s 0 ≡ map toupper s
unfolding upper
upper_whole s = take_all (length s) (map toupper s) (omega (arith, length-map s toupper))

toupper_idem : (c : ℕ) → toupper (toupper c) ≡ toupper c
unfolding toupper
toupper_idem c = ground arith

map-toupper_idem : (s : Bytes) → map toupper (map toupper s) ≡ map toupper s
map-toupper_idem [] = refl
map-toupper_idem (c ∷ s) = cc (toupper_idem c, map-toupper_idem s)

-- A text in upper case is in upper case.
pub upper_idem : (s : Bytes) → upper (upper s 0) 0 ≡ upper s 0
upper_idem s =
    upper_whole (upper s 0)
    ∙ ap (map toupper) (upper_whole s)
    ∙ map-toupper_idem s
    ∙ sym (upper_whole s)
