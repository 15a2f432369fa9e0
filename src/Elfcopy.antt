-- ===== src/Elfcopy.antt =====
-- elfcopy, which copies objects between formats: its text records, elfcopy/ascii.c.
pub mod Hex
pub mod Record
pub mod Scn
pub mod Srec
pub mod Image
pub mod Ihex
mod Tests
