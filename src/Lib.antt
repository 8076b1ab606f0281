-- ===== src/Lib.antt =====
-- OneKey firmware, the USB gadget demo: the packet protocol and the USB stack of the bootloader mode.
--
-- The program makes a Linux board a USB device. libusbgx configures the gadget
-- (onekey_usb_configfs.hpp), functionfs carries the traffic of its endpoints
-- (onekey_usb_functionfs.hpp), the packets of the host are parsed and the answers composed by the
-- legacy protocol (onekey_protocol.hpp), and a service thread (onekey_usb_bootloader_mode.hpp), which
-- main.cpp starts and stops, ties them together. onekey_usb.hpp has a class for the firmware mode of the
-- device, which nothing uses yet.
--
-- Which file models which part:
--   Protocol         the constants and the message type of onekey_protocol.hpp
--   Protocol.Parser  class parser; Protocol.Parser.Cases and State are about parse_legacy
--   Protocol.Composer  class composer; its child Packets describes the packets of a message, and
--                    Success says when compose_legacy returns true
--   Protocol.Host    the other end of the wire: how a host puts a message together again
--   Protocol.Loopback, Protocol.Endian, Protocol.Restart  the parser on runs of packets and on
--                    composed messages
--   System           the outside: kernel, std::filesystem, libaio, libusbgx, libBzhUtils; its children
--                    Rules, Fine, Undone, Traffic, Tidy and Suffix say how a run of calls is reasoned about
--   Common           the names of the files in onekey_usb_common.hpp
--   Descriptors      the packed structs of onekey_usb_functionfs.hpp as the bytes that are written to the
--                    control file; Descriptors.Format reads such bytes by the format that the kernel's
--                    header documents, and Descriptors.Files says which endpoint a file stands for;
--                    Descriptors.ByteOrder has the byte-order macros of onekey_usb_util.hpp
--   Functionfs       class handler of onekey_usb_functionfs.hpp: its members, events, waits and reads
--   Functionfs.Mount ffs_init and ffs_cleanup
--   Functionfs.Ioctl closing a pipe with SOC_SUPPORT_FFS_IOCTL_CALLES set to 1
--   Functionfs.Aio   aio_init, aio_cleanup, write_host and read_host; Functionfs.Traffic says which
--                    transfers belong to a handler, and Main.Traffic is about those of a whole run
--   Functionfs.Lifecycle  init, cleanup and is_initialized
--   Functionfs.Names  the accessors that the program does not call
--   Configfs         class configfs_handle of onekey_usb_configfs.hpp
--   Bootloader       onekey_usb_bootloader_mode.hpp: the descriptors, and init and cleanup of BOOTLOADER
--   Bootloader.Service  a round of usb_service_routine, with the answer to a packet
--   Bootloader.Written, Pipes, Traffic  what a successful init has told the kernel, which endpoints the
--                    two pipes are, and how long a transfer is waited for
--   Bootloader.SuperSpeed  the descriptors for super speed
--   Main             main.cpp and the loops of usb_service_routine: two threads, as a step relation;
--                    Main.Handshake is the abstract machine of the two flags
--   Firmware         class ONEKEY_USB_FIRMWARE of onekey_usb.hpp
--   Prelude          shared names, tests, list lemmas, signed numbers
--
-- How state and operations correspond. A class is a record with its data members; a member function
-- takes the record and returns the new one with its result. A function of the protocol returns an
-- `Outcome`, in which undefined behaviour of C++ (an iterator past the end, a read past the end) is
-- a result of its own. A function of the handler, of the configfs handle and of the bootloader runs
-- in the monad `M` of System.Monad: over the object and the list of all calls made to the outside.
-- The outside answers each call by an arbitrary function of that list, so that the theorems hold
-- for every behaviour of the kernel and the libraries. The macro RAC_ADVANCE and the two functions
-- of libaio that prepare a control block are parameters, with what they are documented to do as
-- hypotheses. Logging is left out, since nothing reads it.
--
-- Two assumptions on C++. The loads of the id and the size at onekey_protocol.hpp:88-89, through a
-- uint16_t* and a uint32_t* at odd addresses of a vector of bytes, are undefined in standard C++, by
-- alignment and aliasing; they are taken as the target makes them, as reads of those bytes, and a
-- theorem that speaks of undefined behaviour leaves them out. What RAC_CUSTOM of libBzhUtils shows to the
-- check of onekey_usb.hpp as `ret`, and what it may write to the member of that name, are parameters.
--
-- Bounds and fuel. Bytes, 16-bit and 32-bit numbers are natural numbers; a theorem that needs their
-- range says so. Sizes of vectors stay below 2 ^ 63, so that their sums do not wrap; a time_t has 64
-- bits on the target, so that the products of the timeouts do not either. The target is
-- little-endian, by the toolchain files under cmake. The loop of compose_legacy has a round of fuel for
-- each data byte and one more; a round takes 63 bytes, or all that are left.
--
-- The structs of the kernel's headers are parameters (Descriptors.Layout): the bytes behind their
-- documented first fields, and their sizes. The values of the headers' constants are hypotheses where a
-- theorem needs them (Descriptors.Documented).
--
-- Not modelled: the HID macros of onekey_usb_util.hpp, which are taken over from TinyUSB, so that the
-- report descriptor they give is a parameter; the generated protobuf code, whose bytes and numbers are
-- parameters, as is the kernel's numbering of the control events; the names that libusbgx and mount are
-- given; the empty class of onekey_usb_firmware_mode.hpp; the build files.
pub mod Prelude
pub mod Protocol
pub mod System
pub mod Common
pub mod Functionfs
pub mod Descriptors
pub mod Configfs
pub mod Bootloader
pub mod Main
pub mod Firmware
