-- ===== src/Discovery.antt =====
-- internal/discovery: a node's discovery document, the tokens of a registration, and the two sides
-- of the handshake.
pub mod Tokens
pub mod Config
pub mod Service
