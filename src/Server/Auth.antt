-- ===== src/Server/Auth.antt =====
-- Who may open which scope: crates/kboard-server/src/auth.rs, and the checks of `websocket` in
-- crates/kboard-server/src/main.rs. The message authentication code, the base64 encoding and the JSON
-- are other packages': they are arguments. Instants are in seconds.
pub mod Grants
use k_board.Common.{
  ℕ, ◌+◌, ◌-◌, ◌^◌, min, Bool, true, false, not, ◌||◌, ◌==◌, List, [], ◌∷◌, ◌++◌, Option, none,
  some, is_some, length, leb, if◌then◌else◌,
}
use k_board.Common.Order.{bytes_ord, equals}
use k_board.Common.Text.{Str, ascii}
use k_board.Document.{ScopeId}
use k_board.Server.Limits.{scope_is_acceptable}

pub record Claims : Type 0 where
  pub scope : Str
  pub exp : ℕ

pub data Denied : Type 0 where
  missing malformed bad_signature expired wrong_scope : Denied

-- `Result<(), Denied>`.
pub data Verdict : Type 0 where
  ok : Verdict
  err : Denied → Verdict

-- What hmac, base64 and serde_json do.
pub record Crypto : Type 0 where
  pub sign : Str → Str → Str
  pub encode : Str → Str
  pub decode : Str → Option Str
  pub print : Claims → Option Str
  pub parse : Str → Option Claims

pub record Authority : Type 0 where
  pub secret : Option Str

unfoldable pub is_enforcing : Authority → Bool
is_enforcing a = is_some a.secret

-- `IpAddr`: four bytes, or the number that sixteen bytes are.
pub data IpAddr : Type 0 where
  v4 : ℕ → ℕ → ℕ → ℕ → IpAddr
  v6 : ℕ → IpAddr

-- `is_loopback`: 127.0.0.0/8, and ::1.
abbrev pub is_loopback : IpAddr → Bool
is_loopback (IpAddr.v4 a b c d) = a == 127
is_loopback (IpAddr.v6 address) = address == 1

unfoldable pub permits_bind : Authority → IpAddr → Bool
permits_bind a address = is_enforcing a || is_loopback address

abbrev pub u64_max : ℕ
u64_max = 2 ^ 64 - 1

-- 12 hours.
abbrev pub default_ttl_seconds : ℕ
default_ttl_seconds = 43200

abbrev pub dot : ℕ
dot = b'.'

-- `split_once('.')`.
abbrev pub before_dot : ℕ → Option (Str × Str) → Option (Str × Str)
before_dot b none = none
before_dot b (some (s, t)) = some (b ∷ s, t)

unfoldable pub split_once : Str → Option (Str × Str)
split_once [] = none
split_once (b ∷ s) = let rest = split_once s in if b == dot then some ([], s) else before_dot b rest

module _ (crypto : Crypto) where
  -- A token of what is printed.
  abbrev pub sealed : Str → Option Str → Option Str
  sealed secret none = none
  sealed secret (some payload) =
      let encoded = crypto.encode payload in
      some (encoded ++ dot ∷ crypto.encode (crypto.sign secret encoded))

  abbrev pub minted : ScopeId → ℕ → ℕ → Option Str → Option Str
  minted scope ttl_seconds now none = none
  minted scope ttl_seconds now (some secret) =
      sealed secret (crypto.print (record { scope = scope; exp = min (now + ttl_seconds) u64_max }))

  unfoldable pub mint : Authority → ScopeId → ℕ → ℕ → Option Str
  mint a scope ttl_seconds now = minted scope ttl_seconds now a.secret

  -- The checks of `verify`, from the last to the first.
  abbrev pub granted : ScopeId → ℕ → Option Claims → Verdict
  granted scope now none = Verdict.err malformed
  granted scope now (some claims) =
      if leb claims.exp now
      then Verdict.err expired
      else if not (equals claims.scope scope)
      then Verdict.err wrong_scope
      else Verdict.ok

  abbrev pub read_claims : Option Str → Option Claims
  read_claims none = none
  read_claims (some payload) = crypto.parse payload

  abbrev pub signed : Str → Str → ScopeId → ℕ → Option Str → Verdict
  signed secret encoded scope now none = Verdict.err malformed
  signed secret encoded scope now (some presented) =
      let expected = crypto.sign secret encoded in
      if not (length presented == length expected) || not (equals presented expected)
      then Verdict.err bad_signature
      else granted scope now (read_claims (crypto.decode encoded))

  abbrev pub split : Str → ScopeId → ℕ → Option (Str × Str) → Verdict
  split secret scope now none = Verdict.err malformed
  split secret scope now (some (encoded, signature)) =
      signed secret encoded scope now (crypto.decode signature)

  abbrev pub presented : Str → ScopeId → ℕ → Option Str → Verdict
  presented secret scope now none = Verdict.err missing
  presented secret scope now (some token) = split secret scope now (split_once token)

  abbrev pub verdict : Option Str → Option Str → ScopeId → ℕ → Verdict
  verdict none token scope now = Verdict.ok
  verdict (some secret) token scope now = presented secret scope now token

  unfoldable pub verify : Authority → Option Str → ScopeId → ℕ → Verdict
  verify a token scope now = verdict a.secret token scope now

abbrev pub token_protocol_prefix : Str
token_protocol_prefix = ascii "kboard.token."

-- `strip_prefix` at a string.
abbrev pub strip : Str → Str → Option Str
strip [] s = some s
strip (p ∷ prefix) [] = none
strip (p ∷ prefix) (b ∷ s) = if b == p then strip prefix s else none

-- `split(',')`.
abbrev pub onto_first : ℕ → List Str → List Str
onto_first b [] = (b ∷ []) ∷ []
onto_first b (s ∷ parts) = (b ∷ s) ∷ parts

unfoldable pub parts : Str → List Str
parts [] = [] ∷ []
parts (b ∷ s) = let rest = parts s in if b == b',' then [] ∷ rest else onto_first b rest

-- `str::trim`. What `to_str` lets through is printable ASCII and tabs, of which the space and the tab
-- are white space.
abbrev pub is_space : ℕ → Bool
is_space b = b == 32 || b == 9

unfoldable pub trim_start : Str → Str
trim_start [] = []
trim_start (b ∷ s) = let rest = trim_start s in if is_space b then rest else b ∷ s

abbrev pub unless_spaces : ℕ → Str → Str
unless_spaces b [] = if is_space b then [] else b ∷ []
unless_spaces b (c ∷ s) = b ∷ c ∷ s

unfoldable pub trim_spaces : Str → Str
trim_spaces [] = []
trim_spaces (b ∷ s) = unless_spaces b (trim_spaces s)

-- The `find_map` of `offered_token`.
unfoldable pub first_token : List Str → Option Str
first_token [] = none
first_token (s ∷ rest) = elim (strip token_protocol_prefix (trim_spaces (trim_start s))) [
  | some token ↦ some token
  | none ↦ first_token rest
]

-- `offered_token`, on the text of the header, if there is one that `to_str` reads.
abbrev pub offered_token : Option Str → Option Str
offered_token none = none
offered_token (some header) = first_token (parts header)

-- How `websocket` answers: with a status, or an upgrade on the protocol that was offered.
pub data Admission : Type 0 where
  bad_request unauthorized : Admission
  upgraded : Option Str → Admission

abbrev pub selected : Option Str → Option Str
selected none = none
selected (some token) = some (token_protocol_prefix ++ token)

abbrev pub admitted : Option Str → Verdict → Admission
admitted token (Verdict.err reason) = unauthorized
admitted token Verdict.ok = upgraded (selected token)

unfoldable pub websocket : Crypto → Authority → Option Str → ScopeId → ℕ → Admission
websocket crypto a header scope now =
    if not (scope_is_acceptable scope)
    then bad_request
    else admitted (offered_token header) (verify crypto a (offered_token header) scope now)
