-- ===== src/Examples.antt =====
-- The firmware of examples: the callbacks that its main loops give to `poll_command`, and what they answer.
pub mod Firmware
pub mod ScsiData
pub mod Scsi
pub mod Stm32Scsi
pub mod Rp2040Scsi
pub mod Stm32Ufi
pub mod Answering
pub mod Stm32Answers
pub mod Stm32Unknown
pub mod Stm32Crash
pub mod Reading
pub mod Progress
pub mod Served
pub mod Filler
pub mod Stm32Writing
pub mod Slices
pub mod Written
pub mod Stm32Written
pub mod Rp2040Blocks
pub mod Rp2040Turn
pub mod Rp2040Writing
pub mod Rp2040Written
