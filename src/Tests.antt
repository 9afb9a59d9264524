-- ===== src/Tests.antt =====
-- Runs of the models on concrete inputs, and the theorems at those inputs.
mod Shop
mod Payment
mod Services
mod Console
mod Delivery
mod Panel
mod Advice
mod Browser
mod Tokens
mod Fingerprint
mod Replay
mod Screens
mod Desk
