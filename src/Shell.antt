-- ===== src/Shell.antt =====
-- The shell (src/shell): the line editor and the commands.
pub mod Line
pub mod Shift
pub mod Zipper
pub mod Refine
pub mod Editor
pub mod Session
pub mod Commands
pub mod Stop
pub mod Digits
