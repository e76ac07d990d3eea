-- ===== src/Encoding.antt =====
-- The encodings of Python's standard library that the control plane uses: hexadecimal and decimal
-- text, UTF-8, base64 and base32 with `rstrip(b"=")`, percent-encoding.
pub mod Tokens
use mathlib.Core.List.{reverse}
use ez_open_pn.Prelude.{
  ℕ, zero, suc, ◌+◌, ◌-◌, ◌*◌, ◌/◌, ◌%◌, Bool, ◌&&◌, ◌||◌, List, [], ◌∷◌, ◌++◌, take, Bytes, Text,
  ltb, leb, ◌==◌, if◌then◌else◌,
}

-- `bytes.rstrip(b"=")`, `str.strip()`: the text without what passes a test at an end.
unfoldable pub lstrip : (ℕ → Bool) → Text → Text
lstrip p [] = []
lstrip p (c ∷ cs) = if p c then lstrip p cs else c ∷ cs

unfoldable pub rstrip : (ℕ → Bool) → Text → Text
unfolding lstrip
rstrip p text = reverse (lstrip p (reverse text))

unfoldable pub strip : (ℕ → Bool) → Text → Text
unfolding rstrip
strip p text = rstrip p (lstrip p text)

abbrev pub is_padding : ℕ → Bool
is_padding c = c == b'='

unfoldable pub hex_digit : ℕ → ℕ
hex_digit n = if ltb n 10 then n + 48 else n + 87

unfoldable pub hex : Bytes → Text
unfolding hex_digit
hex [] = []
hex (b ∷ bs) = hex_digit (b / 16) ∷ hex_digit (b % 16) ∷ hex bs

-- `str(uuid)`: groups of four, two, two, two and six bytes.
unfoldable pub uuid_text : Bytes → Text
unfolding hex
uuid_text (a ∷ b ∷ c ∷ d ∷ e ∷ f ∷ g ∷ h ∷ i ∷ j ∷ rest) =
    hex (a ∷ b ∷ c ∷ d ∷ [])
    ++ b'-'
      ∷ (hex (e ∷ f ∷ [])
          ++ b'-' ∷ (hex (g ∷ h ∷ []) ++ b'-' ∷ (hex (i ∷ j ∷ []) ++ b'-' ∷ hex rest)))
uuid_text short = hex short

decimal_onto : ℕ → ℕ → Text → Text
decimal_onto zero n text = text
decimal_onto (suc fuel) n text =
    let rest = decimal_onto fuel (n / 10) ((n % 10 + 48) ∷ text) in
    if ltb n 10 then (n + 48) ∷ text else rest

-- `str(n)`; a number has no more digits than its value and one.
unfoldable pub decimal : ℕ → Text
unfolding decimal_onto
decimal n = decimal_onto (suc n) n []

-- `str.encode("utf-8")`, a code point at a time.
unfoldable pub utf8_char : ℕ → Bytes
utf8_char c =
    if ltb c 0x80
    then c ∷ []
    else if ltb c 0x800
    then (0xc0 + c / 64) ∷ (0x80 + c % 64) ∷ []
    else if ltb c 0x10000
    then (0xe0 + c / 4096) ∷ (0x80 + c / 64 % 64) ∷ (0x80 + c % 64) ∷ []
    else (0xf0 + c / 262144) ∷ (0x80 + c / 4096 % 64) ∷ (0x80 + c / 64 % 64) ∷ (0x80 + c % 64) ∷ []

unfoldable pub utf8 : Text → Bytes
unfolding utf8_char
utf8 [] = []
utf8 (c ∷ cs) = utf8_char c ++ utf8 cs

-- A digit of the base64 alphabet that ends in `plus` and `slash`.
unfoldable pub base64_digit : ℕ → ℕ → ℕ → ℕ
base64_digit plus slash n =
    if ltb n 26
    then n + 65
    else if ltb n 52
    then n + 71
    else if ltb n 62
    then n - 4
    else if n == 62
    then plus
    else slash

-- `base64.b64encode`, padded.
unfoldable pub base64 : ℕ → ℕ → Bytes → Text
unfolding base64_digit
base64 plus slash [] = []
base64 plus slash (a ∷ []) =
    base64_digit plus slash (a / 4) ∷ base64_digit plus slash (a % 4 * 16) ∷ b'=' ∷ b'=' ∷ []
base64 plus slash (a ∷ b ∷ []) =
    base64_digit plus slash (a / 4)
    ∷ base64_digit plus slash (a % 4 * 16 + b / 16)
    ∷ base64_digit plus slash (b % 16 * 4)
    ∷ b'='
    ∷ []
base64 plus slash (a ∷ b ∷ c ∷ rest) =
    base64_digit plus slash (a / 4)
    ∷ base64_digit plus slash (a % 4 * 16 + b / 16)
    ∷ base64_digit plus slash (b % 16 * 4 + c / 64)
    ∷ base64_digit plus slash (c % 64)
    ∷ base64 plus slash rest

unfoldable pub b64encode : Bytes → Text
unfolding base64
b64encode = base64 b'+' b'/'

-- `base64.urlsafe_b64encode(value).rstrip(b"=").decode("ascii")`: `_url_token`, `encode_url_secret`
-- and the tokens of the sessions and of the login form.
unfoldable pub url_token : Bytes → Text
unfolding base64 rstrip
url_token value = rstrip is_padding (base64 b'-' b'_' value)

-- A digit of the base32 alphabet, in lower case.
unfoldable pub base32_digit : ℕ → ℕ
base32_digit n = if ltb n 26 then n + 97 else n + 24

-- Eight digits of a group of five bytes.
unfoldable pub base32_group : ℕ → ℕ → ℕ → ℕ → ℕ → Text
unfolding base32_digit
base32_group a b c d e =
    base32_digit (a / 8)
    ∷ base32_digit (a % 8 * 4 + b / 64)
    ∷ base32_digit (b % 64 / 2)
    ∷ base32_digit (b % 2 * 16 + c / 16)
    ∷ base32_digit (c % 16 * 2 + d / 128)
    ∷ base32_digit (d % 128 / 4)
    ∷ base32_digit (d % 4 * 8 + e / 32)
    ∷ base32_digit (e % 32)
    ∷ []

-- `base64.b32encode(value).rstrip(b"=").decode("ascii").lower()`: a group that is not full has the
-- digits that its bits reach.
unfoldable pub b32_lower : Bytes → Text
unfolding base32_group
b32_lower [] = []
b32_lower (a ∷ []) = take 2 (base32_group a 0 0 0 0)
b32_lower (a ∷ b ∷ []) = take 4 (base32_group a b 0 0 0)
b32_lower (a ∷ b ∷ c ∷ []) = take 5 (base32_group a b c 0 0)
b32_lower (a ∷ b ∷ c ∷ d ∷ []) = take 7 (base32_group a b c d 0)
b32_lower (a ∷ b ∷ c ∷ d ∷ e ∷ rest) = base32_group a b c d e ++ b32_lower rest

abbrev unreserved : ℕ → Bool
unreserved c =
    (leb b'a' c && leb c b'z')
    || (leb b'A' c && leb c b'Z')
    || (leb b'0' c && leb c b'9')
    || (c == b'_')
    || (c == b'.')
    || (c == b'-')
    || (c == b'~')

abbrev upper_hex : ℕ → ℕ
upper_hex n = if ltb n 10 then n + 48 else n + 55

abbrev percent : ℕ → Text
percent b = b'%' ∷ upper_hex (b / 16) ∷ upper_hex (b % 16) ∷ []

quote_bytes : Bytes → Text
quote_bytes [] = []
quote_bytes (b ∷ bs) = (if unreserved b then b ∷ [] else percent b) ++ quote_bytes bs

-- `urllib.parse.quote(text, safe="")`.
unfoldable pub quote : Text → Text
unfolding quote_bytes utf8
quote text = quote_bytes (utf8 text)

plus_bytes : Bytes → Text
plus_bytes [] = []
plus_bytes (b ∷ bs) =
    (if b == b' ' then b'+' ∷ [] else if unreserved b then b ∷ [] else percent b) ++ plus_bytes bs

-- `urllib.parse.urlencode(pairs)`.
unfoldable pub urlencode : List (Text × Text) → Text
unfolding plus_bytes utf8
urlencode [] = []
urlencode ((key, value) ∷ []) = plus_bytes (utf8 key) ++ b'=' ∷ plus_bytes (utf8 value)
urlencode ((key, value) ∷ pair ∷ rest) =
    plus_bytes (utf8 key) ++ b'=' ∷ (plus_bytes (utf8 value) ++ b'&' ∷ urlencode (pair ∷ rest))
