-- ===== src/Session.antt =====
-- ngx_agora_helper.c: `ngx_agora_init` and `ngx_agora_disconnect`.
pub mod Settings
pub mod Init
mod Tests
