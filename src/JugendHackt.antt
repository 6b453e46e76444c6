-- ===== src/JugendHackt.antt =====
-- jugend-hackt-2018-10: a button that makes a dinosaur move by CoAP.
pub mod Button
pub mod Dino
