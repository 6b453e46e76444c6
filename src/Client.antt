-- ===== src/Client.antt =====
-- lndw22_doc/client/main.c: the shell commands of a DNS-over-CoAP client.
pub mod Hex
pub mod Mock
pub mod Context
pub mod Creds
pub mod Commands
pub mod Shell
mod Tests
