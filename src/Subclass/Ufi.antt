-- ===== src/Subclass/Ufi.antt =====
-- usbd-storage/src/subclass/ufi.rs: the USB floppy interface subclass.
pub mod Geometry
pub mod Parse
pub mod Lengths
pub mod Class
