-- ===== src/Protocols.antt =====
-- The protocol layer, src/protocols.
pub mod MqttConfig
pub mod MqttApp
pub mod HttpServer
