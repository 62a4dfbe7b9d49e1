-- ===== src/Transport/Bbb/Depth.antt =====
-- usbd-storage/src/transport/bbb.rs: how deep the handlers call one another.
