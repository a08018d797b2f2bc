-- ===== src/Codes.antt =====
-- The codes of src/alias.h: what becomes of a packet, and the direction that it travels in.

-- ALIAS_THROUGH to ALIAS_TOO_BIG.
pub data Verdict : Type 0 where
  through reset_table del_table from_me to_me do_alias no_table too_short do_drop : Verdict
  not_support too_big : Verdict

-- ALIAS_FROM_LAN2WAN, ALIAS_FROM_WAN2LAN, ALIAS_FROM_UNKNOWN.
pub data From : Type 0 where
  from_lan2wan from_wan2lan from_unknown : From
