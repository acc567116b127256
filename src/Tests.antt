-- ===== src/Tests.antt =====
-- Concrete inputs: sample runs of the definitions, and the theorems at inputs where their hypotheses
-- hold.
mod Router
mod Settings
mod Network
mod Messages
mod Start
mod Pages
mod Ports
mod Commands
