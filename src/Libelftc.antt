-- ===== src/Libelftc.antt =====
-- libelftc, the helpers of the tools: its string tables, libelftc/elftc_string_table.c.
pub mod StringTable
