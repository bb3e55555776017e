-- ===== src/Server/Limits.antt =====
-- The limits of the server: crates/kboard-server/src/limits.rs.
use k_board.Common.{ℕ, ◌*◌, ◌^◌, Bool, false, ◌&&◌, ◌||◌, [], ◌∷◌, length, all, leb, ◌==◌}
use k_board.Common.Text.{Str}

abbrev pub max_ops_per_frame : ℕ
max_ops_per_frame = 512

abbrev pub max_elements_per_room : ℕ
max_elements_per_room = 50000

abbrev pub max_scope_bytes : ℕ
max_scope_bytes = 128

-- 256 * 1024.
abbrev pub max_frame_bytes : ℕ
max_frame_bytes = 262144

abbrev pub max_rooms : ℕ
max_rooms = 10000

-- 30 minutes, in nanoseconds.
abbrev pub room_idle_ttl : ℕ
room_idle_ttl = 30 * 60 * 10 ^ 9

-- The test of `scope_is_acceptable` on a byte.
unfoldable pub is_scope_byte : ℕ → Bool
is_scope_byte byte =
    leb b'0' byte && leb byte b'9'
    || (leb b'A' byte && leb byte b'Z')
    || (leb b'a' byte && leb byte b'z')
    || byte == b'-'
    || byte == b'_'
    || byte == b'.'
    || byte == b':'

unfoldable pub scope_is_acceptable : Str → Bool
scope_is_acceptable [] = false
scope_is_acceptable (b ∷ scope) =
    leb (length (b ∷ scope)) max_scope_bytes && all is_scope_byte (b ∷ scope)
