-- ===== src/Video.antt =====
-- ngx_agora_helper.c, the video path: `append_aud`, `append_sps_pps`, `avcc_to_annexb` and
-- `ngx_agora_send_video`. The log calls are left out, and `malloc` is taken to succeed.
pub mod Out
pub mod ParamSets
pub mod Convert
pub mod AnnexB
pub mod Send
pub mod Sample
pub mod Sync
mod Tests
