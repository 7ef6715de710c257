-- ===== src/Crypto.antt =====
-- gcrypto: encryption of data under a root key, and of data under a work key that the root key wraps;
-- and keys derived from passwords.
pub mod Primitives
pub mod Aes
pub mod Pbkdf2
mod Toy
