-- ===== src/Server/Auth/Grants.antt =====
-- What a token grants: crates/kboard-server/src/auth.rs, `mint` and `verify`.
use k_board.Common.{
  ℕ, ◌+◌, ◌<◌, min, true, not, [], ◌∷◌, ◌++◌, Option, none, some, leb, if◌then◌else◌, All, ◌≡◌, ◌≢◌,
  refl, ap, ap₂, sym, ◌∙◌, arith, Bool-cases, inl, inr,
}
use k_board.Common.Order.{bytes_ord, equals, equals_self, same_of_equals}
use k_board.Common.Text.{Str}
use k_board.Document.{ScopeId}
use k_board.Server.Limits.{scope_is_acceptable}
use k_board.Server.Auth.{
  Claims, expired, wrong_scope, Verdict, Crypto, Authority, upgraded, u64_max, dot, split_once,
  sealed, mint, minted, granted, read_claims, signed, split, presented, verdict, verify,
  offered_token, admitted, websocket,
}

-- What base64 and serde_json promise: what was encoded is decoded, without a dot in the encoding, and
-- what was printed is parsed.
pub record IsFaithful (crypto : Crypto) : Type 0 where
  pub decodes : (s : Str) → crypto.decode (crypto.encode s) ≡ some s
  pub undotted : (s : Str) → All (λ b. b ≢ dot) (crypto.encode s)
  pub printed :
      (c : Claims) → (text : Str) × (crypto.print c ≡ some text) × (crypto.parse text ≡ some c)

split_at_dot : (s t : Str) → All (λ b. b ≢ dot) s → split_once (s ++ dot ∷ t) ≡ some (s, t)
unfolding split_once
split_at_dot [] t h = refl
split_at_dot (b ∷ s) t h = ground (arith, split_at_dot s t h.1, h.0)

own_signature :
    (crypto : Crypto) (secret encoded : Str) (scope : ScopeId) (now : ℕ)
    → signed crypto secret encoded scope now (some (crypto.sign secret encoded))
      ≡ granted crypto scope now (read_claims crypto (crypto.decode encoded))
own_signature crypto secret encoded scope now =
    ground (arith, equals_self (crypto.sign secret encoded))

-- A token that is minted for a scope is granted for that scope until it expires, and for no other:
-- an expired one is refused as such, and one for another scope as such. What base64 and serde_json
-- encode must be read back.
pub mint-verify :
    (crypto : Crypto) (a : Authority) (secret : Str) (scope other : ScopeId) (ttl issued now : ℕ)
    → IsFaithful crypto
    → a.secret ≡ some secret
    → let lifetime = min (issued + ttl) u64_max in
      verify crypto a (mint crypto a scope ttl issued) other now ≡ (
        if leb lifetime now
        then Verdict.err expired
        else if not (equals scope other)
        then Verdict.err wrong_scope
        else Verdict.ok)
unfolding mint verify
mint-verify crypto a secret scope other ttl issued now faithful enforcing =
    let claims : Claims = record { scope = scope; exp = min (issued + ttl) u64_max } in
    let (text, printed, parsed) = faithful.printed claims in
    let encoded = crypto.encode text in
    let signature = crypto.sign secret encoded in
    ap₂ (λ s token. verdict crypto s token other now) enforcing
      (ap (minted crypto scope ttl issued) enforcing ∙ ap (sealed crypto secret) printed)
    ∙ ap (split crypto secret other now)
        (split_at_dot encoded (crypto.encode signature) (faithful.undotted text))
    ∙ ap (signed crypto secret encoded other now) (faithful.decodes signature)
    ∙ own_signature crypto secret encoded other now
    ∙ ap (granted crypto other now) (ap (read_claims crypto) (faithful.decodes text) ∙ parsed)

-- What a token must be to open a scope: two parts, of which the second is the signature of the first
-- under the secret, and the first the claims of a grant for that very scope that has not expired.
pub record IsGranted (crypto : Crypto) (secret token : Str) (scope : ScopeId) (now : ℕ)
    : Type 0 where
  pub encoded : Str
  pub signature : Str
  pub payload : Str
  pub claims : Claims
  pub parted : split_once token ≡ some (encoded, signature)
  pub authentic : crypto.decode signature ≡ some (crypto.sign secret encoded)
  pub carried : crypto.decode encoded ≡ some payload
  pub read : crypto.parse payload ≡ some claims
  pub current : now < claims.exp
  pub scoped : claims.scope ≡ scope

module _ (crypto : Crypto) (secret : Str) (scope : ScopeId) (now : ℕ) where
  granted_inv :
      (found : Option Claims)
      → granted crypto scope now found ≡ Verdict.ok
      → (c : Claims) × (found ≡ some c) × (now < c.exp) × (c.scope ≡ scope)
  granted_inv none h = absurd (cc h)
  granted_inv (some c) h =
      (c, refl, ground (arith, h), ground (arith, h, same_of_equals c.scope scope))

  read_inv :
      (decoded : Option Str) (c : Claims)
      → read_claims crypto decoded ≡ some c
      → (payload : Str) × (decoded ≡ some payload) × (crypto.parse payload ≡ some c)
  read_inv none c h = absurd (cc h)
  read_inv (some payload) c h = (payload, refl, h)

  signed_inv :
      (encoded : Str) (decoded : Option Str)
      → signed crypto secret encoded scope now decoded ≡ Verdict.ok
      → (decoded ≡ some (crypto.sign secret encoded))
        × (granted crypto scope now (read_claims crypto (crypto.decode encoded)) ≡ Verdict.ok)
  signed_inv encoded none h = absurd (cc h)
  signed_inv encoded (some presented) h =
      (ground (arith, h, same_of_equals presented (crypto.sign secret encoded)), ground (arith, h))

  split_inv :
      (token : Str) (found : Option (Str × Str))
      → split_once token ≡ found
      → split crypto secret scope now found ≡ Verdict.ok
      → IsGranted crypto secret token scope now
  split_inv token none e h = absurd (cc h)
  split_inv token (some (encoded, signature)) e h =
      let (authentic, ok) = signed_inv encoded (crypto.decode signature) h in
      let (c, found, current, scoped) =
        granted_inv (read_claims crypto (crypto.decode encoded)) ok in
      let (payload, carried, read) = read_inv (crypto.decode encoded) c found in
      record {
        encoded = encoded;
        signature = signature;
        payload = payload;
        claims = c;
        parted = e;
        authentic = authentic;
        carried = carried;
        read = read;
        current = current;
        scoped = scoped;
      }

  presented_inv :
      (token : Option Str)
      → presented crypto secret scope now token ≡ Verdict.ok
      → (text : Str) × (token ≡ some text) × IsGranted crypto secret text scope now
  presented_inv none h = absurd (cc h)
  presented_inv (some token) h = (token, refl, split_inv token (split_once token) refl h)

-- What a connection must have that is let onto a board where a secret is set.
pub record IsAdmitted (crypto : Crypto) (secret : Str) (header : Option Str) (scope : ScopeId)
    (now : ℕ) : Type 0 where
  pub token : Str
  pub acceptable : scope_is_acceptable scope ≡ true
  pub offered : offered_token header ≡ some token
  pub granted : IsGranted crypto secret token scope now

admitted_inv :
    (token protocol : Option Str) (v : Verdict)
    → admitted token v ≡ upgraded protocol
    → v ≡ Verdict.ok
admitted_inv token protocol (Verdict.err reason) h = absurd (cc h)
admitted_inv token protocol Verdict.ok h = refl

-- Where a secret is set, a connection is upgraded only on a scope with an acceptable name and with a
-- token that was offered, carries the signature of its claims under the secret, names that scope, and
-- has not expired.
pub websocket-IsAdmitted :
    (crypto : Crypto) (a : Authority) (secret : Str) (header : Option Str) (scope : ScopeId)
    (now : ℕ) (protocol : Option Str)
    → a.secret ≡ some secret
    → websocket crypto a header scope now ≡ upgraded protocol
    → IsAdmitted crypto secret header scope now
unfolding websocket verify
websocket-IsAdmitted crypto a secret header scope now protocol enforcing h =
    elim (Bool-cases (scope_is_acceptable scope)) [
      | inl fine ↦
          let token = offered_token header in
          let ok : verdict crypto a.secret token scope now ≡ Verdict.ok =
            admitted_inv token protocol (verdict crypto a.secret token scope now)
              (rw (fine, websocket, verify) at h) in
          let (text, offered, granted) =
            presented_inv crypto secret scope now token
              (sym (ap (λ s. verdict crypto s token scope now) enforcing) ∙ ok) in
          record { token = text; acceptable = fine; offered = offered; granted = granted }
      | inr bad ↦ absurd (cc (rw (bad, websocket) at h))
    ]
