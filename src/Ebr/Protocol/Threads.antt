-- ===== src/Ebr/Protocol/Threads.antt =====
-- A step of a participant keeps the invariant.
mod Pins
mod Retires
pub use Pins.{claim-Inv, raise-Inv, pin_load-Inv, pin_store-Inv, unpin-Inv}
pub use Retires.{load-Inv, unlink-Inv, tag-Inv, push-Inv}
