-- ===== src/Prop/Value/Valid.antt =====
-- Sets of values, for equality of registers: crates/kboard-core/src/prop.rs.
use k_board.Prop.Value.{PropValue}

pub PropValue-set : IsSet PropValue
PropValue-set = hlevel
