-- ===== src/Tests.antt =====
-- Runs of the model on small inputs, and the theorems at concrete inputs.
mod Args
mod Boot
mod Image
mod LibC
mod Launch
mod Line
mod Loader
mod Process
mod Program
mod Programs
mod Calls
mod Echo
mod Format
mod Host
mod Shell
mod Start
mod System
mod Tables
