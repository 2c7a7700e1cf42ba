-- ===== src/Lib.antt =====
-- The Linux driver of the RoboPeak USB display (drivers/linux-driver/src): a framebuffer of 320 by 240
-- pixels of 16 bits whose changes are sent to the display over a bulk endpoint.
--
-- The parts. fbhandlers.c keeps the dirty rectangle: drawing functions and the deferred I/O call
-- `_display_update`, which merges the region into the rectangle and tries to send it. usbhandlers.c
-- sends: `rpusbdisp_usb_try_send_image` takes a bundle of tickets from a pool of URBs, encodes the
-- pixels (run lengths, if the firmware has them) and packs them into packets with a header byte each;
-- a URB that completes brings its ticket back, and when all are back the pending changes are tried
-- again. A status query runs all the time; it reports touches (touchhandlers.c) and that the display
-- lost its contents.
--
-- Common      numbers, lists, byte buffers, C's int, and `Res`, the result of a call that succeeds,
--             fails, meets a BUG_ON or (in the model only) runs out of fuel
-- Protocol    drivers/common/inc/protocol.h, inc/devconf.h, inc/drvconf.h
-- Usb.Device  struct rpusbdisp_dev as far as the display path uses it, and the bus as a log
-- Usb.Tickets the pool: _sell_disp_tickets, _return_disp_tickets, _on_display_transfer_finished,
--             _on_alloc_disp_tickets_pool, _on_release_disp_tickets_pool
-- Usb.Rle     _rle_compress_init, _rle_compress_n_encode, _rle_flush_section, over any sink
-- Usb.Bitblt  _bitblt_encoder_init, _bitblt_encode_command_header, _bitblt_encode_n_transfer_data,
--             _bitblt_encoder_flush, _bitblt_encoder_cleanup
-- Usb.Image   rpusbdisp_usb_try_send_image
-- Usb.Pool    the invariant of the pool over every operation that takes or returns tickets
-- Usb.Commands rpusbdisp_usb_try_copy_area, rpusbdisp_usb_try_draw_rect
-- Usb.Status  _status_start_querying, _on_status_query_finished, _on_parse_status_packet
-- Fb          fbhandlers.c: _display_update and its callers, the hooks for the device; Fb.Color
--             _display_setcolreg, Fb.Defio _display_defio_handler, Fb.Pages rpusbdisp_fb_mmap,
--             rvmalloc and rvfree, Fb.Creation _on_create_new_fb and _on_release_fb
-- Fb.System   the framebuffer with its device as a system of steps in any order
-- Fb.Spec     an abstract screen, which sends messages, and the driver as its refinement
-- Touch       touchhandlers.c; Touch.Reports the reader of its events
-- Driver      main.c; Driver.Whole over the handlers that it registers
-- Usb.Probe   the endpoint scan of rpusbdisp_probe
-- Session     _on_new_usb_device, _on_del_usb_device, the device count and the delayed work;
--             Session.Probe rpusbdisp_probe and rpusbdisp_disconnect
-- Sdk         drivers/usermode-sdk/rpusbdisp-drv/src: Sdk.Rle rleCompress of rle.cc, Sdk.Packets and
--             Sdk.Device the commands of rpusbdisp.cc and their packets, Sdk.Device.Status its status
--             thread, Sdk.Device.Interface c_interface.cc; Sdk.Agreement compares it with the driver
-- Windows     the Windows drivers: Windows.Transport the chunks that drivers/UsbTransportUmdf/Queue.cpp
--             takes, Windows.Pipeline and Windows.Present the frames of
--             drivers/UsbDisplayIdd/Pipeline.cpp, Windows.Touch the interrupt packets of
--             drivers/UsbTransportUmdf/Device.cpp and the reports of drivers/UsbTouchHidUmdf/Device.cpp
--
-- The files below a part hold its theorems; the modules called Runs hold concrete runs.
--
-- State. A record stands for each struct; a ticket is a number and the fields of its URB are functions
-- of it. `usb_submit_urb` is a parameter that answers each call by its number: it takes the URB or
-- refuses it with a status. What it takes is appended to the log `wire`. A lock makes a function one
-- step. The framebuffer is a function of the offset in pixels.
--
-- Numbers. A size_t wraps around at 2^64 where the code subtracts from it; an int is unbounded, except
-- where it is converted to a size_t or to 16 or 32 bits. Products of sizes in the encoder are not
-- wrapped: they are below the size of a URB. PAGE_SIZE is 4096 in Fb.Pages and a parameter in
-- Usb.Tickets.
--
-- Fuel. The loop of `_bitblt_encode_n_transfer_data` has one round for each byte, which is enough
-- since a round copies at least one when a packet has room for more than its header. The page loops
-- take the fuel as an argument.
--
-- A usable pool (`IsUsable`) is one whose count is that of its list, whose tickets have their full
-- length, and whose packets have more than ten bytes; the driver's own display has packets of 64.
--
-- Steps. In Fb.System a drawing call, the deferred work, a completion and a status packet are one step
-- each: a completion while a call is running is one before or after it. What the bus answers and what
-- the memory holds may change from step to step. The drawing calls name a region of the screen, as
-- the kernel's drawing functions do after they have clipped it.
--
-- The SDK. What libusb answers to a transfer, and what malloc leaves in a buffer, are parameters; an
-- allocation succeeds. A transfer that libusb took may stay pending, and does on a display that was not
-- enabled, since only that starts the pipeline. Its packet sizes wrap around at 2^64 where the code computes them.
--
-- The Windows drivers. An attempt to send a chunk meets what a record of type Attempt says; a frame of
-- which no chunk can be allocated any more ends there. Sizes are UINT32 and wrap around at 2^32.
--
-- Not modelled: more than one device, suspend and resume (which do nothing), the drawing functions of
-- the kernel (the memory after them is a parameter), the SDK's search for a device and its wrapper of
-- libusbx, the copies of libusbx and libpng, the rest of the Windows drivers (other requests, power-up,
-- registration, descriptors), scripts and documents.
pub mod Common
pub mod Protocol
pub mod Usb
pub mod Fb
pub mod Touch
pub mod Driver
pub mod Session
pub mod Sdk
pub mod Windows
