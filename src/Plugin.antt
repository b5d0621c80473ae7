-- ===== src/Plugin.antt =====
-- plugin/plugin.go: the container of plugins, over any type of plugin that has a name.
pub mod Container
pub mod Whitelist
pub mod AppointCodec
pub mod Compression
pub mod Auth
