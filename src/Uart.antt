-- ===== src/Uart.antt =====
-- KernelDrivers_March2011/uart_pci_latest_March2011.c: a PCI driver for a card with two UARTs.
pub mod State
pub mod Config
pub mod Diagnos
pub mod Open
pub mod Device
pub mod Probe
