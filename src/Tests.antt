-- ===== src/Tests.antt =====
-- Tests of the model on concrete data, by component.
mod Samples
mod Stores
mod Memory
mod Server
mod Connections
mod Startup
mod Launch
mod Raw
mod Threads
mod Whole
mod Order
mod Contract
mod Adapter
mod Process
mod Tools
