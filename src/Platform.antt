-- ===== src/Platform.antt =====
-- The file and cipher helpers of src/tools.cc over what the program does not implement: OpenSSL's
-- digests and Blowfish, and the file system.
use yatb.Prelude.{
  take, ℕ, zero, suc, ◌+◌, ◌/◌, ◌%◌, ◌-◌, Bool, true, false, [], ◌∷◌, ◌++◌, Option, none, some,
  length, ltb, if◌then◌else◌, ◌≡◌,
}
use yatb.Strings.{upper}
use yatb.Text.{Bytes, codes, same}

-- OpenSSL. `digest` is `EVP_get_digestbyname` with the digest of a text, `none` for an unknown
-- name. `bf_encrypt` and `bf_decrypt` are one `EVP_CipherUpdate` of `EVP_bf_cfb` with the key and a
-- zero vector, `none` where it reports an error.
pub record Crypto : Type 0 where
  pub digest : Bytes → Bytes → Option Bytes
  pub bf_encrypt : Bytes → Bytes → Option Bytes
  pub bf_decrypt : Bytes → Bytes → Option Bytes

-- What the documentation of the stream mode says of the cipher: every text can be enciphered, the
-- result is as long, and the same key gives the text back.
pub record IsCipher (crypto : Crypto) : Type 0 where
  pub cipher : Bytes → Bytes → Bytes
  pub encrypts : (key text : Bytes) → crypto.bf_encrypt key text ≡ some (cipher key text)
  pub decrypts : (key text : Bytes) → crypto.bf_decrypt key (cipher key text) ≡ some text
  pub as_long : (key text : Bytes) → length (cipher key text) ≡ length text

-- The files by name, and the names that can be opened for writing.
pub record Disk : Type 0 where
  pub file : Bytes → Option Bytes
  pub writable : Bytes → Bool

-- A zeroed buffer.
unfoldable pub zeros : ℕ → Bytes
zeros zero = []
zeros (suc n) = 0 ∷ zeros n

module _ (crypto : Crypto) where
  -- `encrypt`: the result and the contents of the zeroed `dataout`.
  unfoldable pub encrypt : Bytes → Bytes → Bool × Bytes
  unfolding zeros
  encrypt key datain = elim (crypto.bf_encrypt key datain) [
    | none ↦ (false, zeros (length datain))
    | some dataout ↦ (true, dataout)
  ]

  unfoldable pub decrypt : Bytes → Bytes → Bool × Bytes
  unfolding zeros
  decrypt key datain = elim (crypto.bf_decrypt key datain) [
    | none ↦ (false, zeros (length datain))
    | some dataout ↦ (true, dataout)
  ]

-- One digit of `hex`.
unfoldable pub hex_digit : ℕ → ℕ
hex_digit n = if ltb n 10 then b'0' + n else b'a' + (n - 10)

-- `res << hex << (int)md_value[k]`: no leading zero.
unfoldable pub hex_byte : ℕ → Bytes
unfolding hex_digit
hex_byte n = if ltb n 16 then hex_digit n ∷ [] else hex_digit (n / 16) ∷ hex_digit (n % 16) ∷ []

-- The loop over the bytes of a digest.
unfoldable pub hex_loop : Bytes → Bytes → Bytes
unfolding hex_byte
hex_loop res [] = res
hex_loop res (b ∷ md_value) = hex_loop (res ++ hex_byte b) md_value

-- `hash`: the text itself where the algorithm is not known.
unfoldable pub hash : Crypto → Bytes → Bytes → Bytes
unfolding hex_loop
hash crypto text algo = elim (crypto.digest algo text) [
  | none ↦ text
  | some md_value ↦ hex_loop [] md_value
]

-- `filesize`: `none` where the file cannot be opened.
unfoldable pub filesize : Disk → Bytes → Option ℕ
filesize disk filename = elim (disk.file filename) [ none ↦ none | some text ↦ some (length text) ]

-- `readfile` for the size that `filesize` gave: the bytes, and a NUL behind them.
unfoldable pub readfile : Disk → Bytes → Bytes
readfile disk filename = elim (disk.file filename) [ none ↦ 0 ∷ [] | some text ↦ text ++ 0 ∷ [] ]

-- `filehash`: its result and what it leaves in `result`.
unfoldable pub filehash : Crypto → Disk → Bytes → Bytes → Bytes → Bool × Bytes
unfolding filesize readfile hex_loop
filehash crypto disk filename algo result = elim (filesize disk filename) [
  | none ↦ (false, result)
  | some size ↦ elim (crypto.digest algo (take size (readfile disk filename))) [
    | none ↦ (false, result)
    | some md_value ↦ (true, hex_loop [] md_value)
  ]
]

-- `writefile`: the file is made anew with the bytes.
unfoldable pub writefile : Disk → Bytes → Bytes → Disk × Bool
writefile disk filename text =
    if disk.writable filename
    then (
      record disk { file = λ name. if same name filename then some text else disk.file name },
      true,
    )
    else (disk, false)

-- One step of `fingerprint`: two digits, and a colon behind every byte but the last.
unfoldable pub colon_hex : Bytes → Bytes
unfolding hex_digit
colon_hex [] = []
colon_hex (b ∷ []) = hex_digit (b / 16) ∷ hex_digit (b % 16) ∷ []
colon_hex (b ∷ c ∷ keyid) = hex_digit (b / 16) ∷ hex_digit (b % 16) ∷ b':' ∷ colon_hex (c ∷ keyid)

-- `fingerprint`: of the peer's certificate, `none` where there is none or its digest fails.
unfoldable pub fingerprint : Option (Option Bytes) → Bytes
unfolding colon_hex upper
fingerprint none = codes "NO-FINGERPRINT"
fingerprint (some none) = codes "NO-FINGERPRINT"
fingerprint (some (some keyid)) = upper (colon_hex keyid) 0
