-- ===== src/Audio.antt =====
-- ngx_agora_helper.c, the audio path: decoded AAC frames of 1024 samples are cut again into Opus
-- frames of 960.
pub mod Memory
pub mod Packet
pub mod Decode
pub mod Stream
pub mod Adts
pub mod Volume
pub mod Sample
pub mod Send
mod Tests
