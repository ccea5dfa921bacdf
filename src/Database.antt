-- ===== src/Database.antt =====
-- The database functions of the controller (RaspberryPi/Window_Controller/write_read.cpp).
pub mod Queries
pub mod Fits
pub mod Access
pub mod Server
