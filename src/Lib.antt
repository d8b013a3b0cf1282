-- ===== src/Lib.antt =====
-- win_kernel_http: an HTTP, HTTP/2 and WebSocket client library for Windows kernel drivers.
--
-- The program is layered. `src/KernelHttpLib/khttp` is the public interface, `engine` pools
-- connections and schedules operations, `client` drives a connection, `net`, `core` and `tls` move
-- bytes. Between them stand the protocol parts, which compute on buffers alone and decide what the
-- rest may trust; this library models those:
--
--   Common      helpers: Boolean tests, lists measured by native numbers, `LONG`s as integers
--               (Int), NTSTATUS values and results (Status), buffers and bit fields (Buffer), an
--               independent reading of base64 text (Base64), and tables over bytes (Bits).
--   Http2       `Wire`: the big-endian reads and writes of http2/Http2Frame.cpp.
--               `Stream`: http2/Http2Stream.cpp, one function per method; a sequence of calls is a
--               list of `Event`s that `run` applies, where a refused call leaves the stream as it
--               is. `Stream.Windows`, `Stream.Ledger` and `Stream.Lifecycle` hold the proofs.
--               `Frame`: http2/Http2Frame.cpp, one function per encoder and decoder, with
--               `Frame.Settings` and `Frame.Base64Url`; `Frame.Layout` says what it is to write a
--               frame.
--               `Frame.Control` puts the frames of fixed size together.
--               `Hpack.Integer`: HpackEncodeInteger and HpackDecodeInteger of http2/Hpack.cpp.
--               `Hpack.Table`: HpackDynamicTable of http2/Hpack.cpp, its ring of entries and its
--               data buffer as functions from index to contents; `Table.Spec` is the table of RFC
--               7541 as a list, `Table.View` reads the ring as a list, and a child for each
--               operation leads up to `Table.Run`.
--               `Hpack.Huffman`: the Huffman coding of http2/Hpack.cpp with the table of
--               http2/HpackHuffman.h; its children see it as a coding of bit sequences
--               (`Huffman.Bits`), which the encoder packs (`Huffman.Runs`, `Huffman.Packing`) and
--               the decoder takes apart (`Huffman.Search`, `Huffman.Reading`, `Huffman.Taking`).
--               `Hpack.StaticTable`: http2/HpackStaticTable.h. `Hpack.Names`, `Hpack.Strings`,
--               `Hpack.Decoder` and `Hpack.Encoder`: the helpers and the two classes of
--               http2/Hpack.cpp. `Hpack.Blocks` puts encoder and decoder together, from one
--               header (`Blocks.Sending`) and one block (`Blocks.RoundTrip`) up to a connection
--               (`Blocks.Connection`); `Blocks.Limits` is about the decoder on any block.
--   Http        `Text`: http/HttpTypes.cpp. `Response` and `Response.Range`: the header lookups of
--               http/HttpResponse.cpp. `Parser`: http/HttpParser.cpp, with a child for the
--               character classes, the numbers, the lines, the parameters, the trailers, the status
--               line, the headers and the chunked body. `Transfer`: the codings that
--               http/HttpTransferCoding.cpp reads from the headers.
--   Tls         `Capabilities`: tls/TlsCapabilities.cpp, its tables row by row. `Policy`:
--               tls/TlsPolicy.cpp.
--   WebSocket   websocket/WebSocketFrame.cpp: `Codec` (frames; its children hold the proofs),
--               `Base64`, `Subprotocol` (the negotiation) and `Handshake` (the accept value and the
--               server's answer). `Codec.Server` reads a masked frame as RFC 6455 says. A failed
--               NT_ASSERT of a build that evaluates it is an outcome of its own (`none`).
--
-- The connection feeds frames to streams and to the frame codec; an upgrade request carries the
-- settings as base64url text; the handshake uses the header lookups, the text comparison, base64
-- and the negotiation in the order of the code.
--
-- The parser reads the status line and the headers in place; the transfer codings and the content
-- length that the headers announce decide how the body is delimited, and the chunked decoder takes
-- it apart. A TLS policy is asked for each suite, group and signature scheme by its code.
--
-- A function that fails returns the NTSTATUS as `err`, or, where the code stores something before
-- it fails or reports a count beside the status, an `Outcome` with all three. Pointers that may be
-- null are `Buffer`s or `Option`s. Numbers are natural numbers; each place where the code cuts to 8,
-- 32 or 64 bits says so (`low_bits`, `wrap_long`, `% 2 ^ 64`). `SIZE_T` has 64 bits.
--
-- Loops are recursion on the bytes that are left, or on accessibility (encode_rest). Two token scans
-- run on fuel: scan_tokens on the length of the text and validate_from on one more, which is enough
-- since each round passes at least one character, or a comma. The loops of the parser over lines,
-- parameters and elements run on the number of characters, those over chunks and trailers on one
-- more, with a result of their own for running out; the eviction loop runs on the number of entries,
-- the loop of HpackDecoder::Decode on the number of bytes of the block.
--
-- Parameters: the hash behind ComputeAcceptValue, with its contexts and allocations, and whether an
-- allocation succeeds. The dynamic table is given names and values from outside its own buffer.
--
-- Not modelled: sockets, the TLS protocol, certificates, cryptography, threads and the vendored
-- brotli; and so far ParseResponse with the content codings, requests, the HTTP/2 connection, the
-- connection pool and URL parsing. GenerateClientKey only passes random bytes to Base64Encode.
pub mod Common
pub mod Http
pub mod Http2
pub mod Tls
pub mod WebSocket
