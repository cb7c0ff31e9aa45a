-- ===== src/Ebr/Protocol/Collectors.antt =====
-- A step of a collection keeps the invariant.
mod Freeing
mod Scan
mod Reclaim
mod Passes
pub use Scan.{begin-Inv, scan-Inv, pass-Inv, stop-Inv, scan_done-Inv, win-Inv}
pub use Reclaim.{reload-Inv, detach-Inv, finish-Inv}
pub use Passes.{free-Inv, keep-Inv, drained-Inv, repush-Inv, repushed-Inv}
