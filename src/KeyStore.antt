-- ===== src/KeyStore.antt =====
-- packages/keystore/src: hexadecimal texts and DER signatures.
pub mod Describe
pub mod Hex
pub mod Der
pub mod Spki
pub mod Blob
pub mod Providers
