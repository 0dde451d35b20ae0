-- ===== src/Lib.antt =====
-- Demagnetize downloads the metadata (the "info" dict) of the torrents that magnet links name: it asks
-- the torrent's trackers for peers, connects to the peers, does the BitTorrent and extension handshakes
-- with each, fetches the pieces of the info (BEP 9), and accepts them if their SHA-1 digest is the hash
-- in the magnet link. The development models the parts in which bytes from the network are read,
-- trusted or answered: the bencode codec, the trackers' protocols, the peer messages, the connection to
-- a peer, and the download of the info from it.
--
-- Which file models what. Names are the source's, in the spelling of the language here (BEP10Registry is
-- Bep10Registry); a method takes its object's state and returns it with the result.
--   Prelude, Prelude/*   what the parts share: lists of bytes and positions in them, integers, orders on
--                        bytes, decimal, hexadecimal and big-endian numbers, Python's dict as an
--                        association list in insertion order
--   Errors               src/demagnetize/errors.py and the exceptions of the interpreter that the
--                        parts raise or catch; a call that may raise returns a Result
--   Struct, Struct/*     int.to_bytes, struct.pack and bytes([n]), with the exception each raises;
--                        struct's signed numbers, struct.iter_unpack, and packets field by field
--   Bencode, Bencode/*   src/demagnetize/bencode.py. Value is what is encoded, Encode is bencode,
--                        Decode is Unbencoder with partial_unbencode and unbencode. Layout says what an
--                        encoding looks like; Steps, RoundTrip, Sound and Normal are about the decoder
--                        on it; Lookup is about dict.get on what was decoded
--   Util/InfoPiecer      InfoPiecer of src/demagnetize/util.py
--   Util/InfoHash        InfoHash of the same file, with bytes.fromhex and base64.b32decode
--   Util/Identity        Key and make_peer_id of the same file, by the random numbers of Util/Random
--   Util/Pathname        sanitize_pathname and template_torrent_filename of the same file
--   Util/Collect         acollect of the same file as a machine, with Progress on its end and Results on
--                        what the loop over it gets
--   Peer/Address         Peer and its address, of src/demagnetize/peer/core.py
--   Trackers/Base        AnnounceEvent, unpack_peers and unpack_peers6 of
--                        src/demagnetize/trackers/base.py; Trackers/Address is what str makes of the
--                        addresses of ipaddress, Trackers/Peers is about the lists of peers
--                        of both families
--   Trackers/Udp         the packets of src/demagnetize/trackers/udp.py, with Requests and Responses on
--                        what they say; Udp/Session is UDPTrackerSession and Connection, with Exchange,
--                        Finish and Announce on how its calls end, and Packs on the numbers they pack
--   Trackers/Http        HTTPAnnounceResponse.parse of src/demagnetize/trackers/http.py, with Responses
--                        and Replies on what it makes of any and of well-formed answers; Http/Announce
--                        is announce and the request it makes; Trackers/Utf8 is which text is decoded
--   Trackers/Tracker     Tracker.from_url and Tracker.get_peers of src/demagnetize/trackers/base.py over
--                        the sessions of both kinds (Sessions), with Outcome on how they end
--   Peer/Extensions      src/demagnetize/peer/extensions.py: extbit, BEP10Registry and its operations
--   Peer/Message         Message, its subclasses, Message.parse and __bytes__ of
--                        src/demagnetize/peer/messages.py
--   Peer/Extended        ExtendedHandshake and BEP9Message of the same file
--   Peer/Wire            decode_message, encode_message, Extended.decompose of the same file
--   Peer/Handshake       Handshake of the same file, its bits by Prelude/Bits
--   Peer/Connection      PeerConnection of src/demagnetize/peer/core.py: send, read, receive, and its
--                        handshake in Connection/Handshake
--   Peer/Metadata        get_metadata_info of the same file, with Pieces and Sound on what it returns
--                        and raises, and Frames, Chats and Serves on a peer that serves the info
--   Peer/Contact         Peer.connect and Peer.get_info of the same file, with Raised on what they raise
--   Peer/Display         what is logged of messages and peers (__str__), and Bitfield.have_amount, with
--                        Display/Pieces on the number of pieces that it counts
--   Session              TorrentSession of src/demagnetize/session.py as a machine, with Progress,
--                        Invariant and Fates on its runs, and Download on the info that it returns
--   Batch                Report and yield_lines of src/demagnetize/util.py, demagnetize2file and
--                        download_torrent_info of src/demagnetize/core.py, and validate_template and the
--                        commands get and batch of src/demagnetize/__main__.py, with Saved and Status on
--                        their exit status; Interleaving is download_torrent_info over acollect, and
--                        Aborts is about exceptions that leave a session's task group
--   Demagnetizer         Demagnetizer and compose_torrent of src/demagnetize/core.py, over the sessions,
--                        the trackers of both kinds and the peers as they are modelled, with Numbers on
--                        what it draws and Outcome on what demagnetize comes to
--   Tests                the definitions run at concrete inputs, some of them those of test/
--
-- How the model stands for the code.
--   Bytes are lists of natural numbers; what is read from a peer is not assumed to be below 256 unless
--   a theorem says so. Python's int is the type of integers. An Unbencoder is what it has not read.
--   A PeerConnection is the bytes that the peer sends until it closes, the messages sent to it, and
--   how many more it takes before it closes; reading beyond the end and sending to a closed peer are
--   PeerErrors, as in read and send. A peer whose answers depend on what it is sent is one of these
--   streams for each run, so that a theorem on all streams holds of it.
--   The digest function is a parameter (sha1), and no theorem assumes anything of it; a digest is
--   compared as bytes where the source compares its hexadecimal form.
--   A UDPTrackerSession holds the datagrams that its socket will receive, each with the time from which
--   it can be read, and a clock, in thousandths of a second, which is only moved by waiting: the time
--   that computing and sending take is none. A wait ends at the nearest deadline: the 15 << n seconds of
--   the round, the connection's expiration, or the deadline that get_peers has set around the call
--   (outer), which is looked at first, since anyio's cancellation by an outer scope is not a
--   TimeoutError of an inner one. Random numbers are parameters: random.randint and its like are made of
--   any number by its remainder. The text of an IPv6 address is
--   that of str in Python 3.8 to 3.12, which does not write IPv4-mapped addresses in dots.
--   The HTTP client is a parameter: what it fetches for a request, and how long that takes; so are the
--   constructor of URLs and bytes.decode with replacement. The peers that get_peers sends are taken at
--   once, since the session's loop over them never waits for anything else.
--   A TorrentSession holds what its tasks have yet to do: for a tracker's task the peers it will send and
--   how it will end, for a peer's task the peer. A step is one that a task takes, in any order that the
--   tasks may run in: a peer is sent and taken, a task ends, gets past the limiter, gets its info, or
--   the info is received. What a peer's get_info comes to is a function of the peer, of which
--   Peer/Contact is one; each address is contacted once. After an outcome all tasks are cancelled.
--   As anyio 4 has it, what is raised within a task group, by a task or by the body, leaves it in an
--   ExceptionGroup (exception_group), here with the one exception that ended the tasks; so it is with
--   get_info of a session and with acollect.
--   A run of acollect is a sequence of steps of its tasks: one gets past the limiter, or its coroutine
--   ends, and the loop takes the value of one that offers it. What a coroutine comes to is a function of
--   it. demagnetize is a relation between a link and what its run may come to, since the steps of a
--   session may be taken in many orders; World holds what the network and the libraries do.
--   In the batch mode, parsing a link, downloading, naming and writing a torrent are parameters, and so is
--   the order in which the links are done. Text is the bytes that encode it, but in Util/InfoHash and
--   Util/Pathname, where it is the code points of its characters; torf's decode_dict, str.format_map and
--   the clock are parameters.
--   The interpreter's recursion limit is the parameter depth: how many nested calls of decode_next it
--   takes before it raises RecursionError.
--   UnbencodeError keeps its message; of the other exceptions only the class is kept.
--
-- Bounds and fuel. decode_next recurses on depth. Its loops, receive and the two loops of
-- get_metadata_info run on fuel: one more than the number of bytes that are left. Each round reads at
-- least one byte, so that the fuel is enough; the exception for want of it would be out_of_fuel.
-- send_receive runs on as many rounds as there are datagrams to come and milliseconds up to the
-- deadline, and announce on two more than those milliseconds: a connection that times out has taken
-- time, but for one that was there before. The digits of a key above 2 ^ 32 run on what is above it,
-- since dividing by 16 makes a number smaller. The lengths on the wire are the source's: 4 bytes for a
-- message's length, 65535 for the longest message, 16384 for a piece.
--
-- Not modelled: logging, and the text of handshakes and exceptions in it; the opening of sockets, the
-- errors of a socket's driver, the timeouts on peers, and how anyio schedules and cancels tasks; what
-- torf does with a torrent and a magnet link, and writing the file; the limits of memory and of int()
-- on long digit strings; the parsing of options.
pub mod Prelude
pub mod Errors
pub mod Bencode
pub mod Struct
pub mod Util
pub mod Peer
pub mod Trackers
pub mod Session
pub mod Batch
pub mod Demagnetizer
mod Tests
