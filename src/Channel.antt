-- ===== src/Channel.antt =====
-- internal/channel: the channel repository and the channel service.
pub mod Repo
pub mod Service
pub mod Controller
