-- ===== src/Dissector/Plugin/Items.antt =====
-- The ranges and the values of the items that the dissector adds to the protocol tree.
-- Code: wireshark/mping.lua.
use mathlib.Core.List.{Memᴰ}
use mping_sender_mirror.Prelude.{List}
