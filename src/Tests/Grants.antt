-- ===== src/Tests/Grants.antt =====
-- The theorems on tokens at concrete inputs: crates/kboard-server/src/auth.rs.
use k_board.Common.{
  ℕ, ◌+◌, ◌-◌, min, not, [], ◌∷◌, ◌++◌, map, Option, some, none, leb, ltb, if◌then◌else◌, ◌≡◌, ◌≢◌,
  All, refl, ap, arith,
}
use k_board.Common.Order.{bytes_ord, equals, cmp_bytes}
use k_board.Common.Text.{Str, ascii}
use k_board.Server.Limits.{scope_is_acceptable, is_scope_byte}
use k_board.Server.Auth.{
  Claims, Crypto, Authority, Verdict, expired, wrong_scope, mint, verify, u64_max, dot, websocket,
  upgraded, split_once, parts, trim_start, trim_spaces, first_token, token_protocol_prefix,
}
use k_board.Server.Auth.Grants.{IsFaithful, mint-verify, IsAdmitted, websocket-IsAdmitted}
use k_board.Tests.Data.{board, elsewhere}

-- An encoding of bytes that leaves the dot out.
abbrev past_dot : ℕ → ℕ
past_dot b = if ltb b dot then b else b + 1

abbrev back : ℕ → ℕ
back b = if ltb b dot then b else b - 1

abbrev parse_claims : Str → Option Claims
parse_claims [] = none
parse_claims (exp ∷ scope) = some (record { scope = scope; exp = exp })

abbrev plain_crypto : Crypto
plain_crypto = record {
  sign = λ secret message. secret ++ message;
  encode = map past_dot;
  decode = λ s. some (map back s);
  print = λ claims. some (claims.exp ∷ claims.scope);
  parse = parse_claims;
}

back_again : (s : Str) → map back (map past_dot s) ≡ s
back_again [] = refl
back_again (b ∷ s) = ground (arith, back_again s)

no_dots : (s : Str) → All (λ b. b ≢ dot) (map past_dot s)
no_dots [] = tt
no_dots (b ∷ s) = (ground arith, no_dots s)

plain-IsFaithful : IsFaithful plain_crypto
plain-IsFaithful = record {
  decodes = λ s. ap some (back_again s);
  undotted = no_dots;
  printed = λ c. (c.exp ∷ c.scope, refl, refl);
}

abbrev guarded : Authority
guarded = record { secret = some (ascii "pw") }

mint-verify_example :
    verify plain_crypto guarded (mint plain_crypto guarded board 60 100) elsewhere 120 ≡ (
      if leb (min (100 + 60) u64_max) 120
      then Verdict.err expired
      else if not (equals board elsewhere)
      then Verdict.err wrong_scope
      else Verdict.ok)
mint-verify_example =
    mint-verify plain_crypto guarded (ascii "pw") board elsewhere 60 100 120 plain-IsFaithful refl

abbrev room_name : Str
room_name = ascii "a:b"

abbrev claims_text : Str
claims_text = map past_dot (160 ∷ room_name)

abbrev token : Str
token = claims_text ++ (dot ∷ map past_dot (ascii "pw" ++ claims_text))

abbrev header : Option Str
header = some (ascii "x, " ++ (token_protocol_prefix ++ token))

admits :
    websocket plain_crypto guarded header room_name 120
    ≡ upgraded (some (token_protocol_prefix ++ token))
unfolding websocket scope_is_acceptable is_scope_byte verify split_once parts trim_start trim_spaces
    first_token bytes_ord cmp_bytes
admits = refl

websocket-IsAdmitted_example : IsAdmitted plain_crypto (ascii "pw") header room_name 120
websocket-IsAdmitted_example =
    websocket-IsAdmitted plain_crypto guarded (ascii "pw") header room_name 120
      (some (token_protocol_prefix ++ token)) refl admits
