-- ===== src/Subclass/Scsi.antt =====
-- usbd-storage/src/subclass/scsi.rs: the SCSI subclass.
pub mod Parse
pub mod NoPanic
pub mod RoundTrip
pub mod Class
pub mod Polling
