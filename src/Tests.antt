-- ===== src/Tests.antt =====
-- The program on concrete inputs, and the theorems at inputs that meet their hypotheses.
mod Audit
mod Browser
mod Sky
mod Texts
mod Calls
mod Pages
mod Letters
mod Scenes
mod Scripts
mod Server
mod Served
mod Readers
