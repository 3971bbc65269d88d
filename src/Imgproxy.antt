-- ===== src/Imgproxy.antt =====
-- internal/imgproxy: the signer of image addresses, and the handler of /img.
pub mod Signer
pub mod Handler
