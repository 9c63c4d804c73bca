-- ===== src/Tests.antt =====
-- Concrete lists, resources, tasks and contexts, and the theorems at them.
mod Data
mod Lists
mod Formats
mod Tasks
mod Tree
mod Operations
mod Messages
mod Sessions
