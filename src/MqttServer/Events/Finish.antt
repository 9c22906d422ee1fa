-- ===== src/MqttServer/Events/Finish.antt =====
-- The end of a stream.
