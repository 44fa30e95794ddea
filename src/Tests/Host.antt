-- ===== src/Tests/Host.antt =====
-- A host for the tests: a digest, a cipher that holds to its documentation, and a disk.
use yatb.Platform.{
  Crypto, IsCipher, Disk, filehash, filesize, readfile, hex_loop, hex_byte, hex_digit,
}
use yatb.Prelude.{
  false, suc, ◌+◌, ◌-◌, true, [], ◌∷◌, none, some, length, map, if◌then◌else◌, ◌≡◌, refl, ap, arith,
  ◌∙◌,
}
use yatb.Text.{Bytes, codes, same}

-- The digest of a text is the text, and enciphering counts every byte up.
abbrev pub host : Crypto
host = record {
  digest = λ algo text. if same algo (codes "sha1") then some text else none;
  bf_encrypt = λ key text. some (map (λ b. b + 1) text);
  bf_decrypt = λ key text. some (map (λ b. b - 1) text);
}

pub down-up : (s : Bytes) → map (λ b. b - 1) (map (λ b. b + 1) s) ≡ s
down-up [] = refl
down-up (b ∷ s) =
    let e : b + 1 - 1 ≡ b = omega arith in
    ap (λ c. c ∷ map (λ d. d - 1) (map (λ d. d + 1) s)) e ∙ ap (λ t. b ∷ t) (down-up s)

pub as_long : (s : Bytes) → length (map (λ b. b + 1) s) ≡ length s
as_long [] = refl
as_long (b ∷ s) = ap suc (as_long s)

abbrev pub host-IsCipher : IsCipher host
host-IsCipher = record {
  cipher = λ key text. map (λ b. b + 1) text;
  encrypts = λ key text. refl;
  decrypts = λ key text. ap some (down-up text);
  as_long = λ key text. as_long text;
}

-- An empty disk on which everything can be written.
abbrev pub blank : Disk
blank = record { file = λ name. none; writable = λ name. true }

-- The digest of a file, and of one that is not there.
filehash_run :
    (filehash host
        (record { file = λ name. some (1 ∷ 16 ∷ []); writable = λ name. true })
        (codes "f")
        (codes "sha1")
        []
      ≡ (true, codes "110"))
    × (filehash host blank (codes "f") (codes "sha1") (codes "old") ≡ (false, codes "old"))
unfolding filehash same filesize readfile hex_loop hex_byte hex_digit
filehash_run = (refl, refl)
