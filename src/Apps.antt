-- ===== src/Apps.antt =====
-- backend/routers/applications.py: applications and their instances.
pub mod Work
pub mod Sample
pub mod Start
pub mod Runtime
pub mod Nginx
pub mod Lifecycle
pub mod Ports
pub mod Instances
pub mod Scale
pub mod Recovery
pub mod Sync
mod Tests
