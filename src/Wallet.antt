-- ===== src/Wallet.antt =====
-- The wallet (src/wallet).
pub mod Keystore
pub mod Account
pub mod Signer
pub mod Send
pub mod Payment
pub mod Created
pub mod Backup
pub mod Recovery
