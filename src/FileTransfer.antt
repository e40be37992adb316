-- ===== src/FileTransfer.antt =====
-- The filetransfer package: encrypted file artifacts.
pub mod Format
pub mod Packer
pub mod Unpacker
pub mod RoundTrip
