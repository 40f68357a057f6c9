-- ===== src/Tests.antt =====
-- Runs of the model on concrete inputs, and the theorems at such inputs.
mod Type2
mod Improved
mod Manager
mod Bytes
mod Digits
mod Maps
mod Hash
mod Shown
mod Depth
mod Session
mod Subscriber
mod Orders
mod Publisher
mod Queues
