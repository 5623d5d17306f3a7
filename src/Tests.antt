-- ===== src/Tests.antt =====
-- The examples: concrete calls of the code, each a theorem at its arguments.
mod Data
mod Paths
mod Directories
mod Inodes
mod Handlers
mod Media
mod Disks
mod Restarts
mod Starts
mod Tables
mod Lives
mod Rooms
mod Logs
mod Links
