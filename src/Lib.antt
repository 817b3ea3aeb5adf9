-- ===== src/Lib.antt =====
-- wire: voice and video calls over Iroh (crate wire) and the desktop client with its chat (crate
-- wire-app).
--
-- The parts, how they interact, and the files that model them:
--
-- * Video frames on a QUIC stream, wire/src/video/transport.rs. Video/Transport.antt has
--   `send_frame` and `recv_frame` as functions to and from bytes (`recv_body`, `check_header` and
--   `decode_frame` are the sections of `recv_frame`), and the `KeyframeGate` that drops frames until
--   a keyframe comes.
-- * H.264 access units, wire/src/video/bitstream.rs. Video/Bitstream.antt has the whole file. The
--   loop over length-prefixed units takes fuel: each round consumes at least four bytes, so the
--   length of the input is enough, and that is the fuel given.
-- * Profile snapshots, wire-app/src/profile.rs, in Profile.antt: the limits on a peer's profile and
--   the accent colour; Profile/Base64.antt is the base64 that carries an avatar. Client status embeds the snapshot in its packets.
-- * Client status, wire-app/src/client_status.rs: Presence/Health.antt is `ProbeHealth`, which counts
--   failed probes and numbers probes by a 64-bit generation that wraps; Presence/Packet.antt is the
--   packet with its limits, the length framing and the life of a call's advertisement;
--   Presence/Protocol.antt is the state of `ClientStatusProtocol`, with `accept` for an incoming
--   connection, and the two halves of a probe, `begin_probe` and `probe_finished`, as separate steps,
--   since packets and other probes come between them.
-- * The chat service, wire-app/src/chat.rs. Chat/Message.antt is a message, its checks and the order
--   of the timeline; Chat/Retention.antt the retention policy; Chat/Records.antt the other records;
--   Chat/Backoff.antt the delays; Chat/Service.antt the state of `ChatService` and the spawning of
--   wakes; Chat/Schedule.antt the timers by conversation; Chat/Delivery.antt the operations on the
--   delivery of messages: the retry timer, the end of a wake, the return of a peer, receipts. A
--   spawned task is recorded in the field `tasks`; its end is a later call. Runs of these calls are
--   the lists of events in Chat/Delivery/Runs.antt.
-- * The reliable control queue of chat.rs, in Chat/Control.antt: what waits for the acknowledgement of
--   each member, its registration and the acknowledgements; its timer and what a start does with it are in
--   Chat/Control/Retry.antt. Its entries are part of the state in Chat/Service.antt, and the wakes carry
--   them.
-- * Deletions of chat.rs, in Chat/Deletions.antt: those on this device, with a file that is saved or not, and
--   those for everyone, which `apply_direct_deletions` stages and `merge_staged_deletions` brings into a
--   timeline.
-- * Messages that come over the chat protocol before the document brings them, and the timeline, in
--   Chat/Timeline.antt: `process_input` of a sync request and `apply_sync_request` up to where it publishes,
--   and `merge_staged_inbound` and the filter of `publish_timeline`. What the document has is an argument.
-- * The timeline that the document has, `load_messages_query` and `load_recent_messages` of chat.rs, in
--   Chat/Document.antt. The document library, the blob store and the JSON parser are the record `Library`;
--   an entry says what the blob store answers for it. Chat/Document/Contents.antt has what a document says
--   as lists, Chat/Document/Shown.antt what is shown of one message, and the loads are compared with them. Chat/Document/Published.antt joins a load with what is staged.
-- * Invitations of chat.rs, in Chat/Invites.antt: `accept_invite` with its checks, the choice between two
--   replicas, what is forgotten and what migrates, and `process_input` of an invitation. What the document
--   library and the disk answer is the record `Documents`; calls of theirs are recorded in `tasks`.
-- * Opening and publishing a conversation, `open_and_publish` and `publish_timeline` of chat.rs with what they
--   call: the subscription and the order of the steps in Chat/Publish.antt, the requests for attachments and
--   the receipts of files in Chat/Attachments.antt, the receipts of messages in Chat/Receipts.antt. What the libraries and the clocks answer is the record `Answers`. Chat/Publish/Kept.antt says
--   what it leaves as it is.
-- * The pool of warm connections of the chat service, `ChatSessionPool` of chat.rs, in
--   Chat/Sessions.antt. Its loop of evictions takes the number of entries as fuel, since each round
--   removes one. A dial is its end alone, since other calls come between the lookup before the
--   connection and the insertion after it.
-- * Versions and the choice of a release, wire-app/src/update.rs, in Update.antt. The client status
--   carries the version texts that are compared there.
-- * Executables from a friend, wire-app/src/peer_update.rs, in Update/Peer.antt: the requests, the offers
--   and the answers of `PeerUpdateProtocol::accept`. Update/Peer/Download.antt is `download_update`, with
--   `StagedUpdate::verify` of update.rs and what runtime/worker.rs does around them:
--   `run_peer_update_download` and the command that starts it, where the record `Host` says whether a staged
--   file can be removed and whether the task that verifies it comes to its end. The loop over the body has the advertised
--   size and one more as fuel, since each round but the last adds a byte at least.
-- * State files, wire-app/src/persistence.rs, in Persistence.antt: a disk has the file, its backup and its
--   temporary file, and a write is a sequence of calls, each of which can end well, fail or be cut off.
--   Persistence/Register.antt has the abstract view, a register. The other parts keep their files by it.
-- * Call recording, wire-app/src/recording.rs. Recording/Tap.antt is `RecordingTap` with its bounded
--   channel, where the steps of the engine's thread and of the writer's thread are one sequence;
--   Recording/Tap/Voice.antt is one iteration of `decode_loop`; Recording/Wav.antt the files of
--   `write_loop`, with the writes that fail, and Recording/Wav/Reader.antt an independent reader;
--   Recording/File.antt joins the two sides. Recording/Calendar.antt is `civil_from_unix_seconds` with a
--   clock that counts by the Gregorian rule. Samples are of any type, and `sample_to_i16` and the mean
--   of two samples are parameters.
-- * Recording sessions, `RecordingSession` of recording.rs, in Recording/Session.antt: the speakers, the names
--   of their files, and `finish` up to the summary's speakers;
--   Recording/Session/Directory.antt is the search for a directory. Names are lists of characters, and what is
--   alphanumeric and lower case are parameters. The number that is printed is the fuel of its printing,
--   since each round divides it by ten.
-- * Notifications, wire-app/src/notifications.rs, in Notifications.antt: `NotificationStore` with its
--   operations and the commands of its channel, without heights and drawing. Notifications/Runs.antt
--   has the runs of the store as lists of events.
-- * Colour conversion, wire-app/src/yuv_convert.rs, in Colour.antt: BGRA to NV12 and back, as built for other
--   systems than Windows. A frame is its rows of bytes, and none stands for a panic.
-- Common and its children hold what these share: lists measured by native numbers, text as the list
-- of its UTF-8 bytes, ordered maps and sets as association lists, signed 64-bit integers as the
-- integers with saturation where the code saturates, big-endian byte strings, and `trim` with the
-- length of the text as fuel, since each round removes a character.
--
-- Clock readings are arguments: monotone instants are natural numbers of milliseconds, `now_millis()`
-- an integer. Node ids are the texts that their `to_string` gives. Code of other packages is a
-- parameter: the parsers of node ids and blob hashes and the URL check (`Externals`), the JSON coding
-- of packets (in Presence/Packet/Framing.antt, where the round trip assumes that JSON reads back what
-- it wrote for the packet at hand), the checks of blob hashes. Logging is left out.
--
-- Not modelled: sockets, timeouts and threads as such; the Iroh libraries behind documents and
-- blobs; audio devices, Opus and the RTC library, and with them the application worker beyond the
-- peer updates; screen capture and codecs of the operating systems; the user interface, which draws
-- state held elsewhere; the web service for GIFs; downloads of hosted releases. Of the chat service
-- the offers of local files and the sending and saving of attachments are not modelled, nor the bytes that are
-- written to documents and the events that subscriptions bring later; of the recording its manifest.
mod Common
pub mod Video
pub mod Profile
pub mod Presence
pub mod Chat
pub mod Update
pub mod Persistence
pub mod Recording
pub mod Notifications
pub mod Colour
