-- ===== src/Lib.antt =====
-- Models and proofs for the CAN bus simulation of this repository: Linux drivers for an emulated
-- PCI CAN controller (an SJA1000 in PeliCAN or BasicCAN mode), the QEMU device that emulates it,
-- and the earlier devices and drivers from which both grew.
--
-- The parts and where they are modelled:
--   source/linux_driver/pelican_mode/can_pci.c     Pelican (send_message, receive_message),
--                                                  Pelican.Handlers (irq_handler, device_open,
--                                                  device_release, device_write)
--   source/linux_driver/basiccan_mode/can_pci.c    Basic
--   both drivers: struct can_dev and device_read   Driver, with Driver.Mode (the loops of
--                                                  device_open) and Driver.Probe (pcisimple_probe,
--                                                  pcisimple_remove)
--   backup/qemu_linux4/can-pci.c and can-pci.h     CanPci
--   backup/qemu_linux4/qemu-char.c                 Backend (the CAN backend alone); the one of
--                                                  backup/qemu_linux2 in Backend.Placeholder
--   backup/qemu_linux4/qemu_test                   TestDriver4, TestDriver4.Probe
--   backup/qemu_linux3/can-pci.c, its qemu_test    CanPci3, TestDriver3
--   backup/qemu_linux2/can-pci.c, its qemu_test    CanPci2, TestDriver2
--   backup/qemu_linux1/pci_testdev2.c, its driver  Testdev, TestDriver1
--   the init and exit functions of the devices     Lifecycle
--   source/examples, the main.c of both qemu_test  Programs, Programs.Serves (the kernel's part)
--   display and display_msg                        Display
-- Frame holds struct can_frame and the bus; Memory the memcpy handlers of the first three devices;
-- Bits the bit operations as arithmetic; Base the shared names. Below a part, the modules Send,
-- Receive, Transfer, Interrupt, Invariant, Registers, Decode, Link, Open, Opens, Session, Stream,
-- Laws, Held, Echo, Sends, Queue, Outcomes, Deliver, Loopback, Mismatch, Midway, Digits, Reads,
-- Lines, Printed, Run and Trigger hold proofs. Driver.Fifo is the abstract view of the two rings, a bounded
-- queue, and Pelican.Send.tx_image and Basic.Transfer.tx_image are the controller's transmit
-- layouts. Driver.Abstract is the rings up to where the frames lie in them, a quotient, and its
-- Lift and Calls the operations on that.
--
-- Operations in sequence: Driver.Traffic is a step relation of writes, reads and the two branches
-- of the interrupt handlers, on a controller with a log of the frames given to it; Driver.Repeat
-- is interrupts one after the other, which Fill of both drivers and Pelican.Drain and
-- Pelican.Storm use; in the last two the controller may also change between interrupts. Logs
-- relates the operations of the drivers to the steps of Driver.Traffic.
--
-- Nothing in the drivers keeps their operations apart, and the models follow: Driver.Threads is
-- device_read and device_write cut into their statements, with a step relation for one reader,
-- one writer and the branches of the interrupt handler, which come between the statements of the
-- two, but not inside the send_message of device_write; its Rings and Keeps hold what each
-- program counter relies on, Order the invariant of the runs, Alone and Handler relate the steps
-- to the functions that they cut up and Pelican.Threads and Basic.Threads to the two interrupt
-- handlers, and Collide runs two readers or two writers in turn. Queues holds the operations on
-- two bounded queues, and Atomic relates the runs to sequences of them; Bounds holds what they
-- keep of the arrays and the counts. Pelican.Reopens opens the device between a reader's
-- statements. Pelican.Race and Pelican.Race.Reads are the two operations with the whole interrupt
-- handler between their statements. Pelican.Race.Midway runs send_message as it is on a bus that
-- lets an interrupt come before any access, and CanPci.Midway lets the interrupt handler come
-- there. Driver.Probe.Cards probes several cards, which share the variable `device`.
--
-- How the parts meet: a driver is a function of a Bus, the ioread8 and iowrite8 of a controller
-- with any state; CanPci.guest_bus and CanPci3.guest_bus are such buses, so that the drivers' code
-- runs on the devices' code. A frame goes from device_write to send_message, over the bus to
-- can_mem_write, by buff2frame to the backend, whose frames CanState.chr lists. Backend.Wired is
-- the same device with its backend in place of the list, and the socket's write(2) as a parameter;
-- Backend.Wire is what the bus behind a raw CAN socket gets. Frame.Maps is a map between two
-- controllers that every access respects: Driver.Maps, Pelican.Maps and Pelican.Calls follow it
-- through the driver's calls, Programs.Maps through a program's system calls, and Backend.Guest,
-- Backend.Session and Backend.Sends apply it to the two devices. A user program is a function of
-- the system calls (Programs.Syscalls); Programs.Serves states how the kernel serves them with a
-- driver's file operations, and Tests.Kernel is a kernel that does.
--
-- Conventions: `none` is an access outside an object, which C leaves undefined, or a process that
-- exits; what a variable that nothing initialises happens to hold is an argument (`stack`,
-- `stale`), and so is what the kernel answers to a call (copy_to_user, the calls of the probes)
-- and what copy_from_user leaves in a slot. Stores into uint8_t are written `u8`, those into
-- uint32_t `u32`. The loops over a payload run `can_dlc` rounds; those that change the mode run at
-- most three times, the source's own bound, and need no other fuel. A printed number has at most
-- ten digits, which hold 32 bits in base ten or sixteen.
--
-- Not modelled: the registration with the kernel and with QEMU, messages printed for the log (but
-- their reads of a device's memory are modelled), delays, scripts and the root filesystem,
-- and the serial suite in backup/qemu_linux0 and the rest of the qemu-char.c files, which are
-- other projects' code (copies of Linux and QEMU). Of the repository's own code nothing else is
-- left out. Outside Driver.Threads and Pelican.Race an interrupt handler and a file operation run
-- one after the other, but in CanPci.Midway. The file config is of a kernel for one processor, on which a
-- handler runs to its end before a reader or a writer goes on; several processors are not
-- modelled.
pub mod Base
pub mod Bits
pub mod Frame
pub mod Driver
pub mod Pelican
pub mod Basic
pub mod CanPci
pub mod Programs
pub mod Lifecycle
pub mod Memory
pub mod Testdev
pub mod CanPci2
pub mod CanPci3
pub mod Display
pub mod TestDriver1
pub mod TestDriver2
pub mod TestDriver3
pub mod TestDriver4
pub mod Backend
mod Tests
