-- ===== src/Lib.antt =====
-- Models and proofs for the C library firefly-zephyr: its rings of bytes and of objects, its
-- packing of numbers, its calendar, its work queues, its stream of packets for remote calls, its store of
-- keys and values in flash, and its boot loader.
--
-- How the files follow the program
--
-- * Fifo.antt is subsys/base/src/fd_fifo.c, one function for each `fd_fifo_*`, over the record of
--   `fd_fifo_t`. Fifo/Queue.antt says what the ring promises, a bounded queue of bytes;
--   Fifo/Refine.antt and Fifo/Client.antt show that it keeps the promise.
-- * ObjectFifo.antt is subsys/base/src/fd_object_fifo.c. Pointers into the buffer are offsets. The
--   count of failed assertions of subsys/base/src/fd_assert.c is a field of the state, and an
--   assertion that fails is counted while the code goes on, as in the source; the callback that an
--   application may set is not called. ObjectFifo/Objects.antt is the promise: a bounded queue with
--   one object that may stand allocated behind it.
-- * Binary.antt is subsys/base/src/fd_binary.c: `fd_binary_t` and the functions that pack, put, get
--   and unpack whole numbers and runs of bytes. Binary/Fields.antt is a client that puts and gets a
--   sequence of numbers; Binary/RoundTrip.antt and Binary/Script.antt follow it.
-- * Boot is subsys/boot/src/fd_boot.c. Boot/Types.antt has the structures of
--   subsys/boot/include/fd_boot.h, Boot/Hash.antt `fd_boot_check_hash`, Boot/Executable.antt
--   `fd_boot_get_executable_metadata`, Boot/Update.antt `fd_boot_get_update_metadata` and the two
--   functions that decrypt, Boot/Action.antt the choice of what to do, Boot/Install.antt
--   `fd_boot_install`, and Boot/Run.antt `fd_boot_update` and `fd_boot_execute`.
--
-- The boot loader calls the application through the function pointers of
-- `fd_boot_update_interface_t`: flash, watchdog, hash and cipher. They are a parameter, the record
-- `Interface` of Boot/Interface.antt, over any type of device states. A function that returns false
-- is the result `fail`; `ok` carries what went out through pointers. Boot/Contract.antt states what
-- is relied on: readers return the bytes of a memory, the hash absorbs what it is given, and only
-- the flasher writes. Boot/Device.antt is a device for which that contract is proved.
-- Boot/Triple.antt reasons about calls by conditions before and behind them, Boot/HashLoop.antt,
-- Boot/Verified.antt, Boot/Keep.antt, Boot/Decrypting.antt and Boot/Sealed.antt apply that to the
-- checks, with Boot/Blanking.antt about the bytes that a hash takes as zero and
-- Boot/Deciphering.antt about a hash over what the cipher makes of the storage. Of the cipher
-- nothing is assumed but that it leaves the memories alone: `Deciphers` says what its calls
-- returned. Boot/Safety.antt and Boot/Checks.antt draw the conclusions, and Boot/InstallLoop.antt
-- follows the loop that installs.
--
-- * RpcStream is subsys/rpc/src/fd_rpc_stream.c. RpcStream/Types.antt has the state of
--   `fd_rpc_stream_t`; RpcStream/Send.antt, RpcStream/Receive.antt and RpcStream/Check.antt have
--   one function for each `fd_rpc_stream_*`. The calls of `fd_rpc_stream_client_t` are recorded in
--   order in the state, and what a client does in one of them is a call that follows.
--   RpcStream/Link.antt puts two ends together by a step relation: the client of one end submits
--   data, either end checks its clocks, or a packet that was sent once arrives, at any time and any
--   number of times, or never. `Onward` of RpcStream/Link/Resending.antt is such a link where only
--   packets arrive that are sent from a given moment on. That the other end submits data too is left out of the relation.
--
-- The kernel's clock and semaphores, arithmetic on floating point numbers and the message codec are
-- the parameter `Kernel` of RpcStream/Types.antt. The theorems ask of it only that the clock is not
-- 0, for 0 marks that no data waits for its acknowledgement, and, where data is to be sent again,
-- that it reads a time at which that is due. `fd_rpc_stream_send_data` asserts that
-- none waits and does not ask whether the stream is connected, so a step submits only then.
-- RpcStream/Packets.antt and RpcStream/Sending.antt follow the packets byte for byte,
-- RpcStream/Quiet.antt the calls that hand on no data, RpcStream/Link/Receiver.antt and
-- RpcStream/Link/Arrival.antt the steps of the receiver, RpcStream/Link/Sender.antt and
-- RpcStream/Link/Acknowledgement.antt and RpcStream/Link/Resending.antt those of the sender;
-- RpcStream/Link/Delivery.antt,
-- RpcStream/Link/Progress.antt and RpcStream/Connect.antt draw the conclusions.
--
-- * Calendar.antt is subsys/base/src/fd_calendar.c. Calendar/Days.antt follows its loops through
--   years and months, Calendar/Times.antt and Calendar/Unique.antt relate dates and times.
-- * Work is subsys/base/src/fd_work.c. What a task does is a parameter, a function on the state that may
--   call the functions of the file again; the tasks that were run are recorded in order. Floating point
--   numbers are the parameter `Arithmetic`. Work/Types.antt has the structures, Work/Queues.antt the
--   functions that fill and empty queues, Work/Run.antt those that run tasks; Work/Valid.antt,
--   Work/Calls.antt and Work/Runs.antt follow the invariant, Work/Stage.antt and Work/Round.antt a
--   round over a queue, Work/Lookup.antt and Work/Submission.antt a submission.
--
-- * KeyValueStore is subsys/storage/src/fd_key_value_store.c. KeyValueStore/Types.antt has the
--   structures, KeyValueStore/Pages.antt metadata and the search for the current page,
--   KeyValueStore/Lookup.antt lookups, KeyValueStore/Stream.antt the writes, KeyValueStore/Collect.antt
--   commits, allocation and garbage collection, and KeyValueStore/Api.antt the functions of the header.
--
-- The flash of the store is a list of bytes and part of its state, and a pointer into it is an
-- offset. The flash driver is the parameter `FlashArea` and the message codec the parameter
-- `Codec`, a message being a value of any type. KeyValueStore/Contract.antt states what is relied
-- on of the driver: whole words are written at a word where the flash is erased, and whole
-- erase blocks can be erased. `IsCodec` of KeyValueStore/Adding.antt says that a message is decoded from what it
-- was encoded to. The calls of listeners are recorded in order. KeyValueStore/Log.antt says what
-- the store holds, a log of entries for each page, and KeyValueStore/Invariant.antt when it is
-- well formed. KeyValueStore/Streaming.antt, KeyValueStore/Passing.antt,
-- KeyValueStore/Records.antt and KeyValueStore/Flushing.antt follow the bytes through the stream,
-- KeyValueStore/Commit.antt, KeyValueStore/Adding.antt and KeyValueStore/Allocating.antt an
-- addition, KeyValueStore/Layout.antt, KeyValueStore/Adds.antt and KeyValueStore/Pushing.antt
-- what it does to the flash and the log; KeyValueStore/Mapping.antt,
-- KeyValueStore/Operations.antt, KeyValueStore/Beside.antt, KeyValueStore/Comparing.antt and
-- KeyValueStore/Setting.antt are about keys and values, KeyValueStore/Blank.antt and
-- KeyValueStore/Erasing.antt about erased flash, KeyValueStore/Recovery.antt and
-- KeyValueStore/Restart.antt about a restart, and KeyValueStore/SamePages.antt and
-- KeyValueStore/Ending.antt about the loop that allocates.
--
-- Base has what these share: lists over native numbers, windows of byte lists, words of 32 bits,
-- bits, and positions in a ring.
--
-- Bounds
--
-- Words of 32 bits are numbers with their wrap-around written out. Loops run on fuel: a loop from
-- `location` up to `end` is given `end - location` rounds, and each round moves it on by at least
-- one byte, so the fuel does not end before the loop does. A sequence number has 31 bits in a packet,
-- and a link counts no further; a packet carries at most the 1024 bytes that fit `last_send_data`.
-- The calendar is modelled on times and dates from 1970 on for which its signed numbers of 32 bits
-- are neither negative nor too large, which the functions test, and are `none` otherwise: days up to
-- number 2 ^ 31 - 5 when a date is made of a time. The loop over years gets a round for each day, and that over
-- months twelve. A round over a queue of work gets as many rounds as a queue can have items.
-- The loop that allocates in the store gets three rounds more than there are pages: each round but the
-- last two collects a page, and it gives up when it has collected more than there are. A loop of it that
-- has not ended is `none`, and so is a call that waits for it. The loop of a lookup gets a round for
-- each page, which is enough while the current page is one of them, as in a well-formed store; in
-- a state where it is not the loop of the source need not end, and that of the model says nothing.
--
-- Not modelled
--
-- The default functions that wrap the cipher and the hash, and the function that sets them;
-- ciphers and hashes, which are parameters; numbers of variable width and floating point;
-- interrupts between the reads of a ring's indices; times before 1970; byte stuffing, checksums,
-- envelopes, events, timers, expressions and the calls above the stream; drivers, graphics and
-- radio; the tests of the store behind `FD_KEY_VALUE_STORE_TEST`; generated code.
pub mod Base
pub mod Fifo
pub mod ObjectFifo
pub mod RpcStream
pub mod Calendar
pub mod Work
pub mod KeyValueStore
pub mod Binary
pub mod Boot
