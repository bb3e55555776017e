-- ===== src/Prop/Key/Order.antt =====
-- The derived `Ord` of `PropKey`: crates/kboard-core/src/prop.rs.
use k_board.Common.{ℕ, List, [], ◌∷◌, ◌≡◌, refl, ap, sym, ◌∙◌, get_elem?, unwrap_or}
use k_board.Common.Order.{Ord, pair_ord, nat_ord, bytes_ord, cmp_bytes, key-IsTotal}
use k_board.Common.Text.{Str}
use k_board.Prop.Key.{PropKey}

-- The variant's position and its string: the derived order compares the first, then the second.
unfoldable pub rank : PropKey → ℕ × Str
rank PropKey.kind = (0, [])
rank PropKey.x = (1, [])
rank PropKey.y = (2, [])
rank PropKey.width = (3, [])
rank PropKey.height = (4, [])
rank PropKey.angle = (5, [])
rank PropKey.stroke = (6, [])
rank PropKey.fill = (7, [])
rank PropKey.stroke_width = (8, [])
rank PropKey.opacity = (9, [])
rank PropKey.roughness = (10, [])
rank PropKey.text = (11, [])
rank PropKey.font_size = (12, [])
rank PropKey.font_family = (13, [])
rank PropKey.points = (14, [])
rank PropKey.z_index = (15, [])
rank PropKey.locked = (16, [])
rank PropKey.deleted = (17, [])
rank PropKey.group_id = (18, [])
rank (PropKey.custom name) = (19, name)

abbrev plain : List PropKey
plain =
    PropKey.kind ∷ PropKey.x ∷ PropKey.y ∷ PropKey.width ∷ PropKey.height ∷ PropKey.angle
    ∷ PropKey.stroke ∷ PropKey.fill ∷ PropKey.stroke_width ∷ PropKey.opacity ∷ PropKey.roughness
    ∷ PropKey.text ∷ PropKey.font_size ∷ PropKey.font_family ∷ PropKey.points ∷ PropKey.z_index
    ∷ PropKey.locked ∷ PropKey.deleted ∷ PropKey.group_id ∷ []

-- The key of a rank.
of_rank : ℕ × Str → PropKey
of_rank p = unwrap_or (PropKey.custom p.1) (get_elem? plain p.0)

of_rank-rank : (k : PropKey) → of_rank (rank k) ≡ k
unfolding of_rank rank
of_rank-rank PropKey.kind = refl
of_rank-rank _ = refl

pub rank-injective : (j k : PropKey) → rank j ≡ rank k → j ≡ k
rank-injective j k e = sym (of_rank-rank j) ∙ ap of_rank e ∙ of_rank-rank k

instance unfoldable pub key_ord : Ord PropKey
unfolding pair_ord nat_ord bytes_ord cmp_bytes rank
key_ord = record {
  cmp = λ j k. (pair_ord {A = ℕ} {B = Str}).cmp (rank j) (rank k);
  total = key-IsTotal rank rank-injective;
}
