-- ===== src/Lib.antt =====
-- A model of the Go package teltonika, a codec for the packets of Teltonika GPS trackers: the
-- codecs 8, 8 extended and 16 for data frames and 12, 13, 14 and 15 for commands, on TCP and UDP.
--
-- Files:
--   Prelude   Boolean tests on numbers, lists over native numbers, signed integers, and the outcome
--             of a Go call: a value, an error, or a run-time panic (Prelude/Outcome).
--   Bytes     encoding/binary, and the slice expressions of Go with their panics.
--   Packet    The structs and constants of teltonika.go.
--   Util      util.go: the checksum (Util/Crc) and the reading cursor (Util/ByteReader).
--   Hex       encoding/hex and strings.TrimLeft, as teltonika.go uses them.
--   Decode    decodePacket and what it calls. Elements and Frame hold the functions; Bounds, Groups,
--             Messages, Frames and Packets the proofs.
--   Encode    encodePacket and what it calls. Elements and Frame hold the functions; Writes, Sizes,
--             Groups, Messages, Frames and Packets the proofs.
--   Wire      The wire format as lists of bytes, independent of both: packet_code and its parts,
--             what fits it (IsPacket), and what a packet is read back as (normal_packet).
--   Transport The exported functions. Stream holds readFromReader and how the bytes are taken, Config
--             the optional configuration, Size the sizes calculated before encoding, Tcp and Udp the
--             two framings, Format the frames as lists of bytes; the others the proofs.
--   IoElements ioelements/ioelements.go: the lookup of definitions and the decoding of values;
--             Printed is String and the loop of the servers over the elements of a frame.
--   Json      The JSON methods of GenerationType, and in Bytes those of the two types of byte slices.
--   TcpServer examples/simple-tcp-server/main.go: the registry of clients, SendPacket; Session holds
--             handleConnection (in Hooked with hooks that block or panic), System the registry under
--             handlers that run at the same time, Sending SendPacket beside them, Hooks what main makes
--             of the handlers' calls.
--   HttpServer The HTTP side of the same program: handleCmd's packet (Commands), and Hub, in which
--             requests and the calls of WriteMessage and ClientDisconnected interleave.
--   UdpServer examples/simple-udp-server/main.go: the handling of datagrams; Pool is Run, the loop and
--             the workers behind a channel, Log what a handler logs, Hooks what main makes of OnPacket.
--   TestClient examples/test-client/main.go: the loop over the lines that are typed.
--   Texts     strings.Trim and strings.Join, as the examples and the generator use them.
--   Generator tools/io_elements_gen.go: Rows reads the texts of a row, Normalize corrects a
--             definition, Preferences compares two, Collect takes one in, Csv writes and reads fields,
--             Output lists the models and Source prints the Go file. Pages goes from page to page,
--             Fetch loads a page or takes it from the cache file, and Cells reads the text of a cell.
--   Tests     Runs of the code and of the theorems at concrete packets.
--
-- How the code is modelled: a byte slice is a list of numbers below 256. A function that writes
-- into a slice returns its new contents with the number of bytes written, and a call on buf[pos:]
-- puts its contents back behind the first pos bytes. A method of byteReader takes and returns the
-- cursor. A function that returns (value, error) returns a Result, whose third constructor is a
-- run-time panic; the error values keep the numbers that their messages print. `none` is a nil
-- slice where the code tells nil and empty apart, and a nil io.Reader.
--
-- Parameters: float64 is the interface Float64, two conversions of a coordinate of which only the
-- range of uint32 is assumed; for I/O elements it is the interface Number, of which nothing is
-- assumed. io.Reader is the interface Reader with the documented bound on the number of bytes, and
-- no more; a reader that delivers a byte stream in pieces is IsStream.
--
-- Fuel: the loops of genCrc16IBMLookupTable take fuel, and the table is evaluated, so the fuel is
-- enough. read_loop takes the number of missing bytes as fuel, and each round but the last lowers
-- it. All other loops are structural recursion on their counter or list. int has 64 bits, so the
-- sums of lengths do not wrap; uint32 subtraction in decodeCommand wraps as in the source.
--
-- A handler of a TCP connection takes a number of rounds and returns what it did, in order, as
-- events, and whether it stopped or goes on: the loop has no end of its own, so no number of rounds
-- is assumed to be enough, and the theorems say what each number gives. Handlers that run at the
-- same time, and calls of SendPacket beside them (TcpServer/Sending), are step relations: a step is
-- one call of a sync.Map or of a channel, which Go makes atomic, and the theorems hold in each
-- reachable state. TcpServer/System/Handlers connects the two views. A hook is an event of its call;
-- Session/Hooked says what is done if the call blocks or panics. A request to the output hook is a
-- goroutine of its own, so nothing is said of the order in which requests arrive.
--
-- More parameters: net.Conn and bufio.Reader are the interface Conn, whose calls may fail in any
-- way; IsUp and IsWhole say of a connection that they do not. strings.TrimSpace, strings.ToLower,
-- sort.Strings and go-cmp's Equal are functions that the definitions take. The generator's float64
-- is the interface Float, a comparison and the conversion of literals. goquery and net/url are the
-- interface Parsers, printing is Printer, and Formats for values; json.Marshal is a function;
-- net/http and the cache file are the interface World, and IsLasting says of the file that it gives
-- back what was written to it; IsSite bounds the pages that can be reached. The loop over pages
-- takes fuel, since the pages decide how many there are; if they link to finitely many addresses, so
-- many rounds and one for each model are enough.
--
-- Limits: a hex string that decodes to fewer bytes than are sliced off it is a panic, since the
-- documentation of encoding/hex promises no spare capacity. A slice of the caller that both
-- allocation modes may share is not tracked: the decoders do not write to their input.
--
-- Not modelled: the generated table of I/O elements; of the generator, the command line and the CSV
-- files; of the TCP server, logging, which is the same code as in the UDP server, and the list of
-- clients; the set-up of listeners. buildJsonPacket and hookSend are the same code in both servers
-- and are modelled once.
pub mod Prelude
pub mod Bytes
pub mod Packet
pub mod Util
pub mod Hex
pub mod Texts
pub mod Decode
pub mod Encode
pub mod Wire
pub mod Transport
pub mod IoElements
pub mod Json
pub mod TcpServer
pub mod HttpServer
pub mod UdpServer
pub mod TestClient
pub mod Generator
pub mod Tests
