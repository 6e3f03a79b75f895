-- ===== src/Lib.antt =====
-- The ESPHome components of ESPMeshMesh: the node with its settings and commands, an OTA server
-- that speaks in mesh datagrams, remote access to a node's entities, reachability pings, mesh
-- sockets behind the interface of system sockets, a packet transport, a firmware that tests the
-- mesh, and the audio buffers that are kept beside them. Each file of this library opens with the
-- path of the code that it models; definitions carry the source's names in lower case with
-- underscores, without the trailing underscore of members.
--
-- Prelude: names shared by all files, Boolean tests and lists over the native numbers.
-- Prelude.Results: the result of code that may run into undefined behaviour or throw, which is
-- the outcome fault. Mesh: the fields of a mesh address that the source uses, and 32-bit
-- arithmetic.
--
-- Node.State, Node.Frames, Node.Life: MeshmeshComponent of components/meshmesh/meshmesh.cpp.
-- Node.Frames has one function per case of handleFrame, Node.Life the construction, the
-- preferences, the set-up, the loop and the log. Flash is what was saved last, read off the
-- trace; a restart is a new object with that. An empty frame, whose first byte is read all the
-- same, is undefined behaviour. The frames that a pass of the mesh loop delivers, and each
-- reading of the clock, are arguments; the record Platform has the constants of the build, the
-- encoder of node information and the number codecs of the mesh library. Node.Cases,
-- Node.Replies, Node.Passes, Node.Saved, Node.Valid, Node.Settings, Node.Reboot: the proofs.
-- Node.Tests: a sample node.
--
-- Ota.State: the fields of MeshmeshOtaComponent as the record Ota, and what it calls outside as
-- the record Platform (MeshSocket::sendDatagram, millis, the OTA backend, random_bytes, SHA-256,
-- and the datagrams that a pass of the mesh loop delivers). Calls that change the world are
-- recorded in a trace, newest first. Ota.Rx, Ota.Auth, Ota.Handshake, Ota.Data, Ota.Loop: one
-- function per member function of components/meshmesh/ota/ota_meshmesh.cpp, and one per case of
-- its two switches; a case that falls through calls the next. A null dereference is the outcome
-- fault. The answers of the outside, the clock's included, depend on the number of outside calls
-- made before; a pass of loop in a run counts as one, so that the clock goes on between passes.
-- USE_OTA_PASSWORD is defined (an empty password is the branch without authentication), the
-- target is an ESP32, the protocol version is 2.
--
-- Ota.Queue, Ota.Frames, Ota.Invariant, Ota.Keep, Ota.Waiting, Ota.HandshakeSafe, Ota.AuthSafe,
-- Ota.DataSafe, Ota.Safety, Ota.Chunks, Ota.Firmware, Ota.Deadline, Ota.Transfer, Ota.Response,
-- Ota.Access, and Ota.Upload with Setting, Flash, Pass, Schedule, Finish, Whole, Header and
-- Update: the proofs, named for what they prove. Ota.Tests: a sample session and the theorems at
-- concrete inputs.
--
-- Ping: components/ping/ping.cpp, one function per member function, with each reading of the
-- clock and each answer of the socket an argument. Ping.Rounds and Ping.Runs: one round, and runs
-- of events. Ping.Tests: a sample round.
--
-- Direct.State, Direct.Find, Direct.Sends, Direct.Handlers:
-- components/meshmesh_direct/meshmesh_direct.cpp with all entity kinds compiled in; the entities
-- of the application are an argument. A switch of the application may be a remote switch itself:
-- it is then its place among the command reply handlers, and turning it on or off, which
-- ESPHome's base class hands to write_state, asks its own node for the state. For another switch
-- write_state is code outside, and the call is what is recorded. Direct.Remote:
-- switch/meshmesh_switch.cpp and the dispatch of frames to handlers, of which the remote switches
-- are the only ones for replies. Direct.Lookup, Direct.Forwarding, Direct.Replies,
-- Direct.Discovery, Direct.EndToEnd: the proofs. Direct.Tests: two sample nodes. The calls of the
-- mesh library that put 16-bit numbers into two bytes are the record Library, with the law that
-- reading undoes writing.
--
-- Socket.State, Socket.Calls: MeshMeshSocketImpl of components/socket/meshmesh_socket_impl.cpp:
-- the static table and counter as the record World, an object as the record MeshMeshSocketImpl,
-- one function per member function. An int is a word of 32 bits, -1 the word 2^32 - 1. MeshSocket
-- of the mesh library is the record Library over any type of sockets; an object behind a pointer
-- changes in place in the table. at() of a missing key throws: the outcome fault. Socket.Owners:
-- programs as sequences of calls, and the view in which each object owns its socket.
-- Socket.Storing, Socket.Closing, Socket.Joining, Socket.Owned, Socket.Steps, Socket.Refines,
-- Socket.Vectors, Socket.Writing, Socket.Peers: the proofs. Socket.Tests: sample sockets.
--
-- Transport: MeshmeshTransport of components/meshmesh/packet_transport/meshmesh_transport.cpp;
-- Transport.Packets: what of a packet arrives; Transport.Tests: a sample packet.
--
-- MeshTest.State, MeshTest.Steps: components/meshmesh_test, one function per member function and
-- the macros of defines.h. What broadcast1 and unicast1 have in common is small_packet_test, and
-- each case of a test is one of a few functions, with the text, the sub-state that follows and
-- the time limit as arguments. MeshTest.Safe, MeshTest.Forward, MeshTest.Runs, MeshTest.Session:
-- the proofs. MeshTest.Tests: sample nodes.
--
-- Audio.Source: RingBufferAudioSource of components/audio/audio_transfer_buffer.cpp. A pointer is
-- an offset into the splice buffer or into the item held; the answers of the ring buffer are
-- arguments. Audio.Stream, Audio.Reading, Audio.Frames, Audio.Filling, Audio.Refill, Audio.Runs:
-- the proofs. Audio.Tests: a sample source. Audio.Transfer: AudioTransferBuffer and its source
-- and sink of the same file, with the pointer to the first byte as an offset. Audio.Const:
-- ConstAudioSourceBuffer, the setters of sources and sinks, and the destructors. Audio.Moving,
-- Audio.Resizing: the proofs. Audio.TransferTests: a sample buffer.
--
-- The two loops of the OTA data phase (readall_ and the block acknowledgements) recur on fuel,
-- the outcome blocked being a loop that is still on. One unit of fuel per block, and one more, is
-- enough for the acknowledgements. For readall_ it is one per byte and one per wait until the
-- clock is past the time limit; while the clock stands and no byte comes, it really waits.
--
-- Not modelled: the copies of ESPHome's network, socket (raw TCP, lwIP and BSD), audio codec and
-- OTA components; the automation actions of meshmesh_direct, which only forward; the generated
-- encoder of node information. Of the files modelled: log output, dump_config, the watchdog,
-- delays, and the ESP8266 lockdown of the radio during a flash write. A 32-bit size_t is written
-- out by `% 2 ^ 32` where the source adds or subtracts without a guard.
pub mod Prelude
pub mod Mesh
pub mod Ota
pub mod Direct
pub mod Ping
pub mod Audio
pub mod Socket
pub mod MeshTest
pub mod Node
pub mod Transport
