-- ===== src/Node.antt =====
-- The sensor node (microController/phytec/main.c): the servo, the main thread, the communication
-- thread, the messages between the two, and the sensors.
pub mod Servo
pub mod Main
pub mod Link
pub mod Sensors
