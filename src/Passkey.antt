-- ===== src/Passkey.antt =====
-- plugins/passkey/: the CBOR decoder and the WebAuthn wire format.
pub mod Cbor
pub mod Webauthn
