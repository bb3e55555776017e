-- ===== src/Server/Loop.antt =====
-- The loop of a connection over its frames: crates/kboard-server/src/main.rs, `session`, and
-- crates/kboard-server/src/limits.rs. Messages that are not text are passed over by the loop and do
-- not stand in the list of frames.
use k_board.Common.{
  ℕ, suc, ◌+◌, ◌≤◌, ◌<◌, Bool, true, false, List, [], ◌∷◌, Option, none, some, length,
  if◌then◌else◌, ◌≡◌, refl, ap, ◌∙◌, arith, Bool-cases, inl, inr,
}
use k_board.Common.Order.{bytes_ord}
use k_board.Common.Text.{Str}
use k_board.Clock.{ActorId}
use k_board.Document.{ScopeId}
use k_board.Store.{Json}
use k_board.Server.Rate.{RateLimiter, allow, should_disconnect, max_rate_strikes}
use k_board.Server.State.{ServerState}
use k_board.Server.Session.{Wire, handle_frame}

-- A text message, when the limiter reads the clock, and when the room does.
pub record Frame : Type 0 where
  pub text : Str
  pub arrived : ℕ
  pub now : ℕ

-- What the frames left, what was sent of them, and whether the loop still waits for one.
pub record Looped (P Q : Type 0) : Type 0 where
  pub state : ServerState P Q
  pub limiter : RateLimiter
  pub sent : List Str
  pub waits : Bool

abbrev pub also_sent : {P Q : Type 0} → Option Str → Looped P Q → Looped P Q
also_sent none l = l
also_sent (some payload) l = record l { sent = payload ∷ l.sent }

module _ {P Q : Type 0} (json : Json P Q) (wire : Wire) (scope : ScopeId)
    (connection : ActorId) where
  unfoldable pub receive : ServerState P Q → RateLimiter → List Frame → Looped P Q
  receive s limiter [] = record { state = s; limiter = limiter; sent = []; waits = true }
  receive s limiter (f ∷ fs) =
      let h = handle_frame json wire scope connection s limiter f.text f.arrived f.now in
      let rest = receive h.state h.limiter fs in
      if h.stays
      then also_sent h.sent rest
      else record { state = h.state; limiter = h.limiter; sent = []; waits = false }

-- Frames that the limiter refuses one after the other.
abbrev pub IsFlood : RateLimiter → List Frame → Type 0
IsFlood limiter [] = Unit
IsFlood limiter (f ∷ fs) =
    ((allow limiter f.arrived).1 ≡ false) × IsFlood (allow limiter f.arrived).0 fs

-- A refusal is one strike more, and a frame that is let through is one less, if there is one.
refused_strikes :
    (l : RateLimiter) (now : ℕ)
    → l.strikes < max_rate_strikes
    → (allow l now).1 ≡ false
    → (allow l now).0.strikes ≡ suc l.strikes
unfolding allow
refused_strikes l now few refused = ground (arith, refused)

allowed_strikes :
    (l : RateLimiter) (now : ℕ) → (allow l now).1 ≡ true → (allow l now).0.strikes ≤ l.strikes
unfolding allow
allowed_strikes l now allowed = ground (arith, allowed)

module _ {P Q : Type 0} (json : Json P Q) (wire : Wire) (scope : ScopeId)
    (connection : ActorId) where
  -- What a refused frame does.
  refused_frame :
      (s : ServerState P Q) (limiter : RateLimiter) (f : Frame)
      → (allow limiter f.arrived).1 ≡ false
      → let h = handle_frame json wire scope connection s limiter f.text f.arrived f.now in
        h.stays ≡ true
        → (h.limiter ≡ (allow limiter f.arrived).0)
          × (should_disconnect (allow limiter f.arrived).0 ≡ false)
  unfolding handle_frame
  refused_frame s limiter f refused stays = ground (arith, refused, stays)

  few_strikes : (l : RateLimiter) → should_disconnect l ≡ false → l.strikes < max_rate_strikes
  unfolding should_disconnect
  few_strikes l h = ground (arith, h)

  waits_also : (sent : Option Str) (l : Looped P Q) → (also_sent sent l).waits ≡ l.waits
  waits_also none l = refl
  waits_also (some payload) l = refl

  -- A flood ends the loop: while a connection waits it has fewer than 20 strikes, and where as many
  -- frames are refused one after the other as are missing to 20, it no longer waits.
  pub receive-IsFlood :
      (s : ServerState P Q) (limiter : RateLimiter) (fs : List Frame)
      → limiter.strikes < max_rate_strikes
      → IsFlood limiter fs
      → max_rate_strikes ≤ limiter.strikes + length fs
      → (receive json wire scope connection s limiter fs).waits ≡ false
  unfolding receive
  receive-IsFlood s limiter [] few flood many = absurd (omega (arith, few, many))
  receive-IsFlood s limiter (f ∷ fs) few flood many =
      let h = handle_frame json wire scope connection s limiter f.text f.arrived f.now in
      elim (Bool-cases h.stays) [
        | inl stays ↦
            let (same, going) = refused_frame s limiter f flood.0 stays in
            let next = (allow limiter f.arrived).0 in
            let more = refused_strikes limiter f.arrived few flood.0 in
            let ih : (receive json wire scope connection h.state next fs).waits ≡ false =
              receive-IsFlood h.state next fs (few_strikes next going) flood.1
                (omega (arith, many, more)) in
            rw (stays, receive)
              (waits_also h.sent (receive json wire scope connection h.state h.limiter fs)
                ∙ ap (λ l. (receive json wire scope connection h.state l fs).waits) same
                ∙ ih)
        | inr leaves ↦ rw (leaves, receive)
      ]
