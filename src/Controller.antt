-- ===== src/Controller.antt =====
-- The decision thread of the window controller (RaspberryPi/Window_Controller/main_controller.cpp).
pub mod Readings
pub mod Alarms
pub mod Machine
pub mod Round
pub mod Reads
