-- ===== src/Luke.antt =====
-- lndw18_luke: a CoAP game of a button (controller), a strip of LEDs (display) and a dinosaur.
pub mod Payload
pub mod Coap
pub mod Display
pub mod Controller
pub mod Target
pub mod Dino
pub mod Game
