-- ===== src/Events.antt =====
-- apps/api/services/event_stream.py
pub mod Broker
