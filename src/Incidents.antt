-- ===== src/Incidents.antt =====
-- apps/api/services/incident_service.py
pub mod Service
pub mod Investigation
pub mod Listing
pub mod Views
