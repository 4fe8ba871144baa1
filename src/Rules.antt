-- ===== src/Rules.antt =====
-- backend/app/edge/safety/rules: the seven safety rules, one module each.
pub mod Seatbelt
pub mod OperatorSeated
pub mod Proximity
pub mod Tilt
pub mod Overload
pub mod Visibility
pub mod Temperature
pub mod Bands
pub mod Grace
