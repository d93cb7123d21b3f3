-- ===== src/Lib.antt =====
-- Verification library of ZeroFlow, which shares one mouse, keyboard and clipboard between computers.
--
-- A primary computer and its secondaries exchange messages over TCP. The library covers the way of
-- a message through the program, the clipboard that travels in it, and the way of the cursor over the
-- screens:
--
-- - Unicode, src/lib/base/Unicode.cpp: from_utf8, encode_utf8 (toUTF8 of a character that fits),
--   to_utf8, is_utf8, and the four conversions to and from UCS-2 and UTF-16. A std::string is a list
--   of bytes, the error flag the second component of a result. Utf16 models a little-endian host.
-- - StreamBuffer, src/lib/io/StreamBuffer.cpp: the chunks of the buffer, with peek, pop, write and
--   getSize. View has the abstract queue of bytes and the invariant of the chunks.
-- - PacketStream, src/lib/deskflow/PacketStreamFilter.cpp over src/lib/io/StreamFilter.cpp: cuts a
--   stream of bytes into packets behind a four-byte length. The filter's members are the record
--   Filter; calls of the stream below and events are a list of effects, in order; what the stream
--   below returns is the list of its reads.
-- - Protocol, src/lib/deskflow/ProtocolUtil.cpp: writef and readf. Format has the scan of a format
--   and the arguments, Write the printing half, Stream the interface of the stream below a message
--   with ProtocolUtil::read, Read the scanning half. Any stream with the laws of IStream::read, which
--   Stream lists, stands below; Packets makes one of a PacketStreamFilter that holds whole packets.
-- - Clipboard, src/lib/deskflow/Clipboard.cpp, with marshall, unmarshall and copy of
--   src/lib/deskflow/IClipboard.cpp in Clipboard/Marshall. `none` from unmarshall is a write outside
--   of the clipboard's arrays.
-- - ClipboardTransfer, src/lib/deskflow/ClipboardChunk.cpp and src/lib/deskflow/StreamChunker.cpp:
--   sendClipboard cuts a marshalled clipboard into chunks, send prints a chunk by writef, assemble
--   reads one by readf and takes the receiver's next step. A receiver's state is the record Assembly.
-- - Config, src/lib/server/Config.cpp: isValidScreenName, and the edges of a screen (CellEdge) with
--   their links (Cell) in Config/Links, as the list that the std::map goes through. Config/Screens has
--   the screens and their names: addScreen, addAlias, connect, disconnect and getCanonicalName.
-- - KeyInfo, src/lib/deskflow/IKeyState.cpp: the text that names the screens of a key event, as join
--   writes, split reads and contains searches it.
-- - Server, src/lib/server/Server.cpp: which screen has the cursor. The members are the record Server,
--   and calls of the clients are a list of effects, in order. What the server asks of its clients, of
--   the configuration and of the clock is the record Desk, a parameter of every handler. Geometry has
--   getCorner; Neighbor getNeighbor, mapToNeighbor and avoidJumpZone; Switch isSwitchOkay, the double
--   tap and the wait; Clipboards onClipboardChanged and the handlers of a grab and a change; Screens
--   switchScreen and what calls it; Moves onMouseMovePrimary, onMouseMoveSecondary and
--   handleShapeChanged; Clients addClient, removeClient, closeClient and forceLeaveClient; Keys
--   onKeyDown, onKeyUp and the broadcast of keys; Reload processOptions and closeClients. Steps has
--   the events with their handlers, and the states that sequences of events lead to; Core the
--   invariant of these.
-- - Prelude: names of the libraries, Boolean tests, lists measured by native numbers, bytes, and signed
--   integers.
-- - Examples: concrete runs.
--
-- Numbers are natural numbers, with the wrap-around of uint32_t and size_t written out where the
-- code's values can reach it, as in the byte counts of the Unicode conversions. Memory does not run
-- out. An assertion that fails on the values that the code is given is a result of its own: `none` of
-- writef and of from_utf8, `undefined` of readf, and the effect `assertion_failed` of
-- on_clipboard_changed, behind which the handler goes on as it does without assertions. The other
-- assertions are taken to hold: that pointers are not null, that directions and intervals are in range,
-- and that peek and pop of StreamBuffer find the bytes they are asked for.
--
-- Loops without a structural argument run on fuel: the loop of ProtocolUtil::read on the number of
-- bytes asked for, since each round gets one at least; the loops over UTF-8 on the number of bytes,
-- since fromUTF8 consumes one at least; the loop of StreamBuffer::write on the number of bytes; the
-- loop of sendClipboard on the size plus one, since only its last round can send nothing; the
-- loop of isValidScreenName on the size plus one, since a round moves forward. The theorems on
-- their results hold for exactly this fuel. The loop of getNeighbor need not end: its fuel is a
-- parameter, and enough if it is above a rank of the screens that falls along the links from screens
-- that are not connected. The loops of mapToNeighbor end within as many rounds as there are pixels
-- between the point and the screen that it leaves, since every screen has a size.
--
-- Not modelled: log messages and mutexes (each method is one step), sockets and TLS, the event queue,
-- the platforms' screens, keys and clipboards, settings and the GUI; and, of the core's own logic,
-- the rest of the server's configuration, the protocol's endpoints, key mapping and hotkeys. Of the
-- server: what it only passes on to the active screen, the rest of setConfig, and the layout. Its
-- handlers run one after another, and coordinates do not overflow. The factor that an environment
-- variable gives for moves is left out. A fraction of an edge is of a type that is a parameter, with
-- the division and the multiplication that lead to it and back, since they are of floats.
-- QString's conversions between numbers and text are parameters, with the law that they are inverse.
pub mod Prelude
pub mod Unicode
pub mod StreamBuffer
pub mod PacketStream
pub mod Protocol
pub mod Clipboard
pub mod ClipboardTransfer
pub mod Config
pub mod KeyInfo
pub mod Server
pub mod Examples
