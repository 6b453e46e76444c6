-- ===== src/Wand.antt =====
-- wand/main.c: a wand with two buttons, eight time LEDs, a light LED, a clock and a timer.
pub mod Hardware
pub mod Board
pub mod State
pub mod Display
pub mod Encode
pub mod Power
pub mod Clock
pub mod Modes
pub mod Invariant
pub mod Levels
pub mod Reach
pub mod Readout
pub mod Setting
pub mod Light
pub mod Battery
mod Tests
