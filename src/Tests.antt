-- ===== src/Tests.antt =====
-- The theorems at concrete inputs, and the code on concrete inputs.
mod Alarms
mod Closings
mod Cursor
mod Databases
mod Networks
mod Nodes
mod Outages
mod Queries
mod Rounds
mod States
mod Rows
mod Running
mod Sensors
mod Servers
mod Stopping
mod Systems
mod Texts
mod Threads
mod Webservers
