-- ===== src/Examples/Outside.antt =====
-- A concrete outside: toy cryptography, clocks that advance, peers that answer.
use ez_open_pn.Prelude.{
  ℕ, zero, suc, ◌+◌, ◌*◌, ◌%◌, ◌/◌, ◌≤◌, ◌≡◌, refl, true, false, Option, none, some, List, [], ◌∷◌,
  ◌++◌, Bytes, Text, codes, length, bytes_eq, ltb, ◌==◌, arith,
}
use ez_open_pn.Errors.{Result, ok, err}
use ez_open_pn.Models.{Database}
use ez_open_pn.World.{
  Env, World, Event, sleep, Crypto, response, HttpRequest, HttpReply, status, Datetime, aware,
}

unfoldable pub repeat : ℕ → ℕ → Bytes
repeat zero b = []
repeat (suc n) b = b ∷ repeat n b

unfoldable pub drop : ℕ → Bytes → Bytes
drop zero xs = xs
drop (suc n) [] = []
drop (suc n) (x ∷ xs) = drop n xs

unfoldable pub mix : ℕ → Bytes → ℕ
mix n [] = n
mix n (b ∷ bs) = mix ((n * 31 + b) % 65521) bs

unfoldable pub digest : Bytes → Bytes → Bytes
unfolding mix repeat
digest key value = mix (mix 7 key) value % 256 ∷ mix (mix 7 key) value / 256 ∷ repeat 30 0

unfoldable pub seal : Bytes → Bytes → Bytes → Bytes → Bytes
unfolding repeat
seal nonce key value context = repeat 40 0 ++ value

unfoldable pub toy_crypto : Crypto
unfolding seal drop digest
toy_crypto = record {
  seal = seal;
  decrypt = λ key blob context. some (drop 40 blob);
  hmac_sha256 = digest;
}

pub toy_opens :
    (nonce key value context : Bytes)
    → toy_crypto.decrypt key (toy_crypto.seal nonce key value context) context ≡ some value
unfolding toy_crypto
toy_opens nonce key value context = refl

pub toy_sealed :
    (nonce key value context : Bytes) → 40 ≤ length (toy_crypto.seal nonce key value context)
unfolding toy_crypto
toy_sealed nonce key value context = omega arith

pub toy_hmac : (key value : Bytes) → length (toy_crypto.hmac_sha256 key value) ≡ 32
unfolding toy_crypto
toy_hmac key value = refl

-- Time passes only in pauses.
unfoldable pub ticks : List Event → ℕ
ticks [] = 0
ticks (sleep t ∷ h) = ticks h + t
ticks (e ∷ h) = ticks h

unfoldable pub count : List Event → ℕ
count [] = 0
count (e ∷ h) = count h + 1

abbrev pub answer : HttpReply → HttpRequest → HttpReply
answer kicked (HttpRequest.kick ids) = kicked
answer kicked HttpRequest.restart = status 202

unfoldable pub load_number : Text → Option Datetime
load_number (t ∷ []) = some (aware t)
load_number _ = none

-- The outside, with the answer of Hysteria.
unfoldable pub outside : HttpReply → Env
unfolding toy_crypto repeat ticks count load_number
outside kicked = record {
  unicode = record {
    isspace = λ c. c == 32;
    isalnum = λ c. ltb 47 c;
    is_control = λ c. ltb c 32;
    casefold = λ t. t;
    nfkc = λ t. t;
  };
  deployment = record {
    master_key = repeat 32 7;
    inbound_tag = codes "protected-entry";
    host = codes "192.0.2.1";
    reality_public_key = codes "key";
    reality_short_id = codes "ab12";
    hysteria_obfs_password = codes "obfs";
    public_port = 443;
    panel_port = 8443;
  };
  crypto = toy_crypto;
  argon2 = record {
    hash = λ h password. password;
    verify = λ encoded password. some (bytes_eq encoded password);
    check_needs_rehash = λ encoded. false;
  };
  texts = record { dump_expiry = λ t. t ∷ []; load_expiry = load_number; ip_address = λ t. none };
  completes = λ h. true;
  on_rpc = λ h request. response [];
  on_http = λ h request. answer kicked request;
  clock = λ h. aware (count h * 1000000);
  current_timestamp = λ h. count h * 1000000;
  monotonic = ticks;
  uuid4 = λ h. (count h % 256) ∷ repeat 15 0;
  token_bytes = λ h n. repeat n (count h % 256);
  nonce = λ h. repeat 24 0;
}

abbrev pub empty_tables : Database
empty_tables = record {
  admins = [];
  admin_sessions = [];
  login_throttles = [];
  profiles = [];
  profile_lookups = [];
  system_state = [];
  audit_events = [];
}

abbrev pub start : World
start = record {
  db = empty_tables;
  health = record { ready = false; error_code = none };
  history = [];
}

-- The value of a call, or another one if it raised.
abbrev pub value_or : {A : Type 0} → A → Result A → A
value_or a (ok b) = b
value_or a (err e) = a
