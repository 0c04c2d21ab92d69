-- ===== src/Channels.antt =====
-- src/channels.rs: the channels that requests go to, which of them serve a model, and in which order
-- they are tried; the prices of the models and the charges for them.
pub mod Select
pub mod Catalog
pub mod Serving
pub mod Balance
pub mod Route
pub mod Pricing
pub mod Billing
